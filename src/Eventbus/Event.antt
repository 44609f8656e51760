-- ===== src/Eventbus/Event.antt =====
-- pkg/eventbus/event.go: events with their encoded data. The package encoding/gob is a parameter,
-- for the data of one type. The bus of bus.go passes any type of events.
mod Tests
use monny.Base.{ℕ, String, List, [], Option, none, some, Result, ok, err}

-- `encode` and `decode` give the error of gob where they fail.
pub record Gob {ℓ} (V : Type ℓ) : Type ℓ where
  pub encode : V → Result String (List ℕ)
  pub decode : List ℕ → Result String V

pub record Event : Type 0 where
  pub t : String
  pub d : List ℕ

-- the two errors, with the type of the event and the error of gob
pub data EventError : Type 0 where
  not_created not_decoded : String → String → EventError

abbrev pub empty_event : Event
empty_event = record { t = ""; d = [] }

abbrev pub created : String → Result String (List ℕ) → Event × Option EventError
created t (ok bytes) = (record { t = t; d = bytes }, none)
created t (err e) = (empty_event, some (not_created t e))

abbrev pub decoded {ℓ} : {V : Type ℓ} → String → Result String V → Result EventError V
decoded t (ok v) = ok v
decoded t (err e) = err (not_decoded t e)

module _ {ℓ} {V : Type ℓ} (g : Gob V) where
  -- `NewEvent(t, data)`: the event beside the error
  unfoldable pub new_event : String → Option V → Event × Option EventError
  new_event t none = created t (ok [])
  new_event t (some v) = created t (g.encode v)

  -- `e.Decode(receiver)`
  unfoldable pub decode : Event → Result EventError V
  decode e = decoded e.t (g.decode e.d)
