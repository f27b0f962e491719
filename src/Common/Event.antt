-- ===== src/Common/Event.antt =====
-- plugin/pkg/common/event.go: the handlers of an event, under numbers that count up. A number
-- is the 64 bits of an `int`. A raised event is the list of the handlers that are called.
use flannel_network_plugin.Prelude.{ℕ, ◌+◌, ◌%◌, ◌^◌, List, [], nat_eq}
use flannel_network_plugin.Prelude.Dict.{Dict, insert, remove, values}

pub record EventSource (Handler : Type 0) : Type 0 where
  pub handlers : Dict ℕ Handler
  pub next_id : ℕ

module _ {Handler : Type 0} where
  -- `NewEvent`
  unfoldable pub new_event : EventSource Handler
  new_event = record { handlers = []; next_id = 0 }

  -- The number stands for the function that ends the subscription.
  unfoldable pub subscribe : Handler → EventSource Handler → ℕ × EventSource Handler
  subscribe handler e = (
    e.next_id,
    record { handlers = insert e.next_id handler e.handlers; next_id = (e.next_id + 1) % 2 ^ 64 },
  )

  unfoldable pub unsubscribe : ℕ → EventSource Handler → EventSource Handler
  unsubscribe id e = record e { handlers = remove id e.handlers }

  unfoldable pub raise_event : EventSource Handler → List Handler
  raise_event e = values e.handlers
