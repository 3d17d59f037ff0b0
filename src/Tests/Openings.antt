-- ===== src/Tests/Openings.antt =====
-- Two endpoints that open a connection and close it.
use omnixtend_c.Base.{
  ℕ, ◌≡◌, refl, true, false, some, none, List, [], ◌∷◌, ◌++◌, Outcome, ok, fail, map,
}
use omnixtend_c.Frame.{type_normal, type_open_connection}
use omnixtend_c.SeqNum.{max_seq_num}
use omnixtend_c.CircularQueue.{create_queue}
use omnixtend_c.FlowControl.{init_flowcontrol, init_from, set_credit}
use omnixtend_c.Endpoint.{Endpoint, tloe_endpoint_init}
use omnixtend_c.Connection.{
  Round, open_conn_master, open_conn_slave, close_conn_master, close_conn_slave,
}
use omnixtend_c.Connection.Frames.{conn_packets}
use omnixtend_c.Connection.Waiting.{burst}
use omnixtend_c.Connection.Handshake.{IsConnected, handshake}
use omnixtend_c.Connection.Closing.{close_of}
use omnixtend_c.Connection.Ended.{answer_of, IsClosed, closing}
use omnixtend_c.Tests.Data.{endpoint}

abbrev result : Outcome Endpoint → Endpoint
result (ok e) = e
result (fail fault) = endpoint

abbrev master : Endpoint
master = result (tloe_endpoint_init endpoint 1 1)

abbrev slave : Endpoint
slave = result (tloe_endpoint_init endpoint 1 0)

master_init : tloe_endpoint_init endpoint 1 1 ≡ ok master
unfolding tloe_endpoint_init init_flowcontrol init_from set_credit create_queue
master_init = refl

slave_init : tloe_endpoint_init endpoint 1 0 ≡ ok slave
unfolding tloe_endpoint_init init_flowcontrol init_from set_credit create_queue
slave_init = refl

-- A round with nothing, at whose end the resend time is over, and one with a packet.
abbrev nothing : Round
nothing = record { packet = none; expired = true }

abbrev hears : List ℕ → Round
hears p = record { packet = some p; expired = true }

abbrev at_master : List Round
at_master = nothing ∷ map hears (burst type_normal 0)

abbrev first : Round
first = hears (slot (burst type_open_connection max_seq_num))
  where
    slot : List (List ℕ) → List ℕ
    slot [] = []
    slot (p ∷ ps) = p

abbrev at_slave : List Round
at_slave = nothing ∷ map hears (conn_packets type_open_connection 4 2 max_seq_num)

handshake_example :
    (m' : Endpoint) × (m'' : Endpoint) × (s' : Endpoint) × (s'' : Endpoint) × (open_conn_master
        false master at_master
      ≡ ok (true, m'))
    × (open_conn_slave false slave ((nothing ∷ []) ++ first ∷ at_slave) ≡ ok (true, s'))
    × IsConnected master m' m'' slave s' s''
handshake_example =
    handshake false endpoint endpoint master slave 1 at_master (nothing ∷ []) at_slave first refl
      refl master_init slave_init refl refl refl (λ h. cc) refl

closing_example :
    (m' : Endpoint) × (s' : Endpoint) × (m'' : Endpoint) × (s'' : Endpoint) × (again : List
      (List ℕ))
    × (close_conn_master endpoint (nothing ∷ hears (answer_of endpoint endpoint) ∷ [])
        ≡ ok (true, m'))
    × (m'.wire ≡ close_of endpoint ∷ again)
    × (close_conn_slave endpoint (nothing ∷ hears (close_of endpoint) ∷ nothing ∷ [])
        ≡ ok (true, s'))
    × (s'.wire ≡ answer_of endpoint endpoint ∷ [])
    × IsClosed endpoint m' m'' 1 1
    × IsClosed endpoint s' s'' 1 0
closing_example =
    closing endpoint endpoint 1 (nothing ∷ []) (nothing ∷ []) [] []
      (hears (answer_of endpoint endpoint)) (hears (close_of endpoint)) nothing refl refl tt refl tt
      refl tt
