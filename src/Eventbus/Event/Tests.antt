-- ===== src/Eventbus/Event/Tests.antt =====
-- Events of numbers (pkg/eventbus/event.go).
use monny.Base.{◌≡◌, refl, ℕ, String, List, [], ◌∷◌, none, some, Result, ok, err}
use monny.Eventbus.Event.{Gob, Event, not_created, not_decoded, empty_event, new_event, decode}

abbrev read_number : List ℕ → Result String ℕ
read_number [] = err "EOF"
read_number (n ∷ rest) = ok n

abbrev numbers : Gob ℕ
numbers = record { encode = λ n. ok (n ∷ []); decode = read_number }

abbrev no_numbers : Gob ℕ
no_numbers = record { encode = λ n. err "refused"; decode = read_number }

abbrev seventh : Event
seventh = record { t = "tick"; d = 7 ∷ [] }

with_data : new_event numbers "tick" (some 7) ≡ (seventh, none)
unfolding new_event
with_data = refl

read_again : decode numbers seventh ≡ ok 7
unfolding decode
read_again = refl

not_encoded :
    new_event no_numbers "tick" (some 7) ≡ (empty_event, some (not_created "tick" "refused"))
unfolding new_event
not_encoded = refl

-- without data there is nothing to decode
without_data : decode numbers (new_event numbers "tick" none).0 ≡ err (not_decoded "tick" "EOF")
unfolding new_event decode
without_data = refl
