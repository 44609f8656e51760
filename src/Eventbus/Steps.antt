-- ===== src/Eventbus/Steps.antt =====
-- The runs of an event bus (pkg/eventbus/bus.go): calls, sends and receives in any order that its
-- lock allows.
use monny.Base.{ℕ, ◌≡◌, String, true, List, [], ◌∷◌, ◌++◌, none, some, returned}
use monny.Eventbus.{
  Bus, subscribe, dispatch, start_send, send, receive, close_done, shutdown, all_closed,
  end_shutdown, unsubscribe,
}

pub data Action {ℓ} (E : Type ℓ) : Type ℓ where
  subscribes dispatched : List String → Action E
  starts resumes : ℕ → E → Action E
  receives exits : ℕ → Action E
  unsubscribes : ℕ → ℕ → Action E
  shuts_down times_out completes : Action E

module _ {ℓ} {E : Type ℓ} where
  -- the write lock is free, and the read lock: a blocked send holds it
  abbrev pub IsFree : Bus E → Type ℓ
  IsFree b = (b.sending ≡ []) × (b.waiting ≡ none)

  -- A step of a bus by an action. A run holds no panic: that ends the program.
  pub data Step : Action E → Bus E → Bus E → Type ℓ where
    subscribe_step :
        (topics : List String) {b : Bus E}
        → IsFree b
        → Step (subscribes topics) b (subscribe topics b)
    dispatch_step :
        (e : E) (topics : List String) {b : Bus E}
        → b.waiting ≡ none
        → Step (dispatched topics) b (dispatch e topics b)
    start_step :
        (front back : List (ℕ × E)) (c : ℕ) (e : E) {b b' : Bus E}
        → b.pending ≡ front ++ (c, e) ∷ back
        → b.waiting ≡ none
        → start_send c e (record b { pending = front ++ back }) ≡ returned b'
        → Step (starts c e) b b'
    resume_step :
        (front back : List (ℕ × E)) (c : ℕ) (e : E) {b b' : Bus E}
        → b.sending ≡ front ++ (c, e) ∷ back
        → send c e (record b { sending = front ++ back }) ≡ returned b'
        → Step (resumes c e) b b'
    receive_step : (c : ℕ) {b : Bus E} → Step (receives c) b (receive c b)
    exit_step : (d : ℕ) {b : Bus E} → Step (exits d) b (close_done d b)
    unsubscribe_step :
        (c d : ℕ) {b b' : Bus E}
        → IsFree b
        → unsubscribe c d b ≡ returned b'
        → Step (unsubscribes c d) b b'
    shutdown_step : {b b' : Bus E} → IsFree b → shutdown b ≡ returned b' → Step shuts_down b b'
    timeout_step :
        (ds : List ℕ) {b : Bus E} → b.waiting ≡ some ds → Step times_out b (end_shutdown b)
    complete_step :
        (ds : List ℕ) {b : Bus E}
        → b.waiting ≡ some ds
        → all_closed b.done_closed ds ≡ true
        → Step completes b (end_shutdown b)

  pub data Run : List (Action E) → Bus E → Bus E → Type ℓ where
    stop : {b : Bus E} → Run [] b b
    then_run :
        {a : Action E} {actions : List (Action E)} {b b' b'' : Bus E}
        → Step a b b'
        → Run actions b' b''
        → Run (a ∷ actions) b b''
