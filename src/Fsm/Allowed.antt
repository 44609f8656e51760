-- ===== src/Fsm/Allowed.antt =====
-- Which transitions a machine allows, from the options of NewMachine (pkg/fsm/options.go), and
-- which states a sequence of calls can reach.
use monny.Base.{
  ◌≡◌, refl, sym, ◌∙◌, ap, Bool, true, false, ◌&&◌, ◌||◌, List, [], ◌∷◌, ◌++◌, str_eq, eq_iff, ◌⊎◌,
  arith, ok, inl, inr,
}
use mathlib.Core.Path.{subst}
use monny.Fsm.Defs.{
  State, Transition, Allowable, targets, append_target, Machine, transitions_from, flatten,
  add_transition, add_all, with_transitions, new_machine, contains, is_allowable, transition, reset,
}

-- What a list of transitions configures: some entry goes from `a` to `b`.
pub configured : List Transition → State → State → Bool
configured [] a b = false
configured (t ∷ ts) a b = (str_eq t.from a && str_eq b t.to) || configured ts a b

contains-append :
    (s : State) (xs ys : List State) → contains s (xs ++ ys) ≡ (contains s xs || contains s ys)
unfolding contains
contains-append s [] ys = refl
contains-append s (x ∷ xs) ys = ground (arith, contains-append s xs ys)

contains-append_target :
    (m : Allowable) (t : Transition) (a b : State)
    → contains b (targets (append_target m t.from t.to) a)
      ≡ (contains b (targets m a) || (str_eq t.from a && str_eq b t.to))
unfolding contains targets append_target
contains-append_target [] t a b = ground arith
contains-append_target ((k, tos) ∷ m) t a b = ground (
  arith,
  contains-append_target m t a b,
  contains-append b tos (t.to ∷ []),
  eq_iff k a,
  eq_iff k t.from,
  eq_iff t.from a,
)

is_allowable-add_all :
    (ts : List Transition) (m : Machine) (a b : State)
    → is_allowable (add_all ts m) a b ≡ (is_allowable m a b || configured ts a b)
unfolding is_allowable add_all configured
is_allowable-add_all [] m a b = ground arith
is_allowable-add_all (t ∷ ts) m a b = ground (
  arith,
  is_allowable-add_all ts (add_transition t m) a b,
  contains-append_target m.allowable t a b,
)

current-add_all : (ts : List Transition) (m : Machine) → (add_all ts m).current ≡ m.current
unfolding add_all
current-add_all [] m = refl
current-add_all (t ∷ ts) m = current-add_all ts (add_transition t m)

stopped-add_all : (ts : List Transition) (m : Machine) → (add_all ts m).stoppable ≡ m.stoppable
unfolding add_all
stopped-add_all [] m = refl
stopped-add_all (t ∷ ts) m = stopped-add_all ts (add_transition t m)

-- A machine built with `WithTransitions` starts in its initial state, not stopped, and allows
-- exactly the transitions that were listed.
pub new_machine-is_allowable :
    (initial : State) (tss : List (List Transition)) (a b : State)
    → (m : Machine) × (new_machine initial (with_transitions tss ∷ []) ≡ ok m)
      × (m.current ≡ initial)
      × (m.stoppable.stopped ≡ false)
      × (is_allowable m a b ≡ configured (flatten tss) a b)
unfolding new_machine with_transitions configured is_allowable
new_machine-is_allowable initial tss a b = (
  add_all (flatten tss) empty,
  refl,
  current-add_all (flatten tss) empty,
  ap (λ s. s.stopped) (stopped-add_all (flatten tss) empty),
  is_allowable-add_all (flatten tss) empty a b,
)
  where
    empty : Machine
    empty = record {
      current = initial;
      initial = initial;
      allowable = [];
      stoppable = record { stop_on_error = false; stopped = false };
    }

-- `T(from, tos...)` allows exactly the transitions from `from` to one of `tos`.
pub configured-transitions_from :
    (from : State) (tos : List State) (a b : State)
    → configured (transitions_from from tos) a b ≡ (str_eq from a && contains b tos)
unfolding configured transitions_from contains
configured-transitions_from from [] a b = ground arith
configured-transitions_from from (to ∷ tos) a b =
    ground (arith, configured-transitions_from from tos a b)

-- The calls that a client makes on a machine.
pub data Call : Type 0 where
  go_to : State → Call
  restart : Call

unfoldable pub call : Machine → Call → Machine
call m (go_to to) = (transition m to).0
call m restart = reset m

unfoldable pub run : Machine → List Call → Machine
unfolding call
run m [] = m
run m (c ∷ cs) = run (call m c) cs

-- The paths of the graph that a machine was configured with.
pub data Reaches (m : Machine) : State → State → Type 0 where
  here : {s : State} → Reaches m s s
  then_to : {s t u : State} → Reaches m s t → is_allowable m t u ≡ true → Reaches m s u

-- What a machine keeps of `m`: its graph and initial state, and a current state that the graph
-- reaches from it.
pub record Follows (m n : Machine) : Type 0 where
  pub same_graph : n.allowable ≡ m.allowable
  pub same_initial : n.initial ≡ m.initial
  pub reached : Reaches m m.initial n.current

transition-cases :
    (m : Machine) (to : State)
    → ((transition m to).0.allowable ≡ m.allowable)
      × ((transition m to).0.initial ≡ m.initial)
      × (((transition m to).0.current ≡ m.current)
          ⊎ (((transition m to).0.current ≡ to) × (is_allowable m m.current to ≡ true)))
unfolding transition
transition-cases m to = ground arith

is_allowable-cong :
    (n m : Machine)
    → n.allowable ≡ m.allowable
    → (a b : State) → is_allowable m a b ≡ is_allowable n a b
unfolding is_allowable
is_allowable-cong n m e a b = rw e

call-Follows : {m n : Machine} (c : Call) → Follows m n → Follows m (call n c)
unfolding call reset
call-Follows {m} {n} restart f = record {
  same_graph = f.same_graph;
  same_initial = f.same_initial;
  reached = subst (Reaches m m.initial) (sym f.same_initial) here;
}
call-Follows {m} {n} (go_to to) f =
    let (graph, start, cases) = transition-cases n to in
    record {
      same_graph = graph ∙ f.same_graph;
      same_initial = start ∙ f.same_initial;
      reached = elim cases [
        | inl same ↦ subst (Reaches m m.initial) (sym same) f.reached
        | inr (moved, allowed) ↦
            subst (Reaches m m.initial) (sym moved)
              (then_to f.reached (is_allowable-cong n m f.same_graph n.current to ∙ allowed))
      ];
    }

run-Follows : {m : Machine} (cs : List Call) {n : Machine} → Follows m n → Follows m (run n cs)
unfolding run
run-Follows [] f = f
run-Follows (c ∷ cs) f = run-Follows cs (call-Follows c f)

-- Whatever calls are made on a machine that is in its initial state, its graph and its initial
-- state never change, and the state that it ends in is reached in that graph from the initial one.
pub run-reached : (m : Machine) (cs : List Call) → m.current ≡ m.initial → Follows m (run m cs)
run-reached m cs e = run-Follows cs (record {
  same_graph = refl;
  same_initial = refl;
  reached = subst (Reaches m m.initial) (sym e) here;
})
