-- ===== src/Metric/Name/Copies.antt =====
-- A copy of a name and its original (pkg/metric/name.go).
use monny.Base.{
  false, ℕ, suc, ◌<◌, ◌==◌, ◌≡◌, refl, ap, ◌∙◌, String, List, [], ◌∷◌, Option, none, some, Outcome,
  returned, then_call, arith,
}
use monny.Metric.Name.{
  Metadata, Store, Name, set_map, annotate, merge, add_annotation, add_metadata, contents,
  new_name_from, Encoding, metadata_of, text_of,
}

-- the calls that change a name
pub data Change : Type 0 where
  annotations : List String → Change
  metadata : Metadata → Change

unfoldable pub make : Change → Name → Store → Outcome Store
unfolding add_annotation add_metadata
make (annotations anns) n st = add_annotation anns n st
make (metadata entries) n st = add_metadata entries n st

unfoldable pub make_all : List Change → Name → Store → Outcome Store
unfolding make
make_all [] n st = returned st
make_all (c ∷ cs) n st = then_call (make c n st) (make_all cs n)

-- what the calls make of a map of its own
unfoldable pub changed : List Change → Metadata → Metadata
unfolding annotate merge
changed [] m = m
changed (annotations anns ∷ cs) m = changed cs (annotate anns m)
changed (metadata entries ∷ cs) m = changed cs (merge entries m)

-- the map that the name refers to has been made
abbrev pub IsMade : Name → Store → Type 0
IsMade n st = (a : ℕ) → n.md ≡ some a → a < st.next

-- the second store has the maps of the first, but for one
abbrev AgreesBut : ℕ → Store → Store → Type 0
AgreesBut a st st' = (b : ℕ) → (b == a) ≡ false → st'.maps b ≡ st.maps b

abbrev Changed : List Change → Name → ℕ → Store → Type 0
Changed cs n a st =
    (st' : Store) × (make_all cs n st ≡ returned st')
    × (st'.maps a ≡ changed cs (st.maps a))
    × AgreesBut a st st'

make-annotations :
    (anns : List String) (n : Name) (a : ℕ) (st : Store)
    → n.md ≡ some a
    → make (annotations anns) n st ≡ returned (set_map a (annotate anns (st.maps a)) st)
unfolding make
make-annotations anns n a st e = ground arith

make-metadata :
    (entries : Metadata) (n : Name) (a : ℕ) (st : Store)
    → n.md ≡ some a
    → make (metadata entries) n st ≡ returned (set_map a (merge entries (st.maps a)) st)
unfolding make
make-metadata entries n a st e = ground arith

set_map-maps :
    (a : ℕ) (m : Metadata) (st : Store)
    → ((set_map a m st).maps a ≡ m) × AgreesBut a st (set_map a m st)
unfolding set_map
set_map-maps a m st = (ground arith, λ b other. ground arith)

Changed-cons :
    (c : Change) (cs : List Change) (n : Name) (a : ℕ) (m : Metadata) (st : Store)
    → make c n st ≡ returned (set_map a m st)
    → changed cs m ≡ changed (c ∷ cs) (st.maps a)
    → Changed cs n a (set_map a m st)
    → Changed (c ∷ cs) n a st
unfolding make_all
Changed-cons c cs n a m st made same (st', rest, here, agrees) =
    let (now, others) = set_map-maps a m st in
    (
      st',
      ap (λ o. then_call o (make_all cs n)) made ∙ rest,
      here ∙ (ap (changed cs) now ∙ same),
      λ b other. agrees b other ∙ others b other,
    )

make_all-Changed :
    (cs : List Change) (n : Name) (a : ℕ) (st : Store) → n.md ≡ some a → Changed cs n a st
unfolding make_all changed
make_all-Changed [] n a st e = (st, refl, refl, λ b other. refl)
make_all-Changed (annotations anns ∷ cs) n a st e =
    Changed-cons (annotations anns) cs n a (annotate anns (st.maps a)) st
      (make-annotations anns n a st e) refl
      (make_all-Changed cs n a (set_map a (annotate anns (st.maps a)) st) e)
make_all-Changed (metadata entries ∷ cs) n a st e =
    Changed-cons (metadata entries) cs n a (merge entries (st.maps a)) st
      (make-metadata entries n a st e) refl
      (make_all-Changed cs n a (set_map a (merge entries (st.maps a)) st) e)

text_of-contents :
    (c : Encoding) (n : Name) (st st' : Store)
    → metadata_of n st' ≡ metadata_of n st
    → text_of c n st' ≡ text_of c n st
unfolding text_of
text_of-contents c n st st' e = rw e

-- a map that has been made is not the next one
not_next : (a next : ℕ) → a < next → (a == next) ≡ false
not_next a next h = ground arith

metadata_of-kept :
    (o : Option ℕ) (name : String) (st st' : Store)
    → IsMade (record { name = name; md = o }) st
    → AgreesBut st.next st st'
    → metadata_of (record { name = name; md = o }) st'
      ≡ metadata_of (record { name = name; md = o }) st
metadata_of-kept none name st st' made agrees = refl
metadata_of-kept (some a) name st st' made agrees =
    ap some (agrees a (not_next a st.next (made a refl)))

-- A copy by NewNameFrom has a map of its own: whatever annotations and metadata are added to it,
-- no call panics, the copy has the metadata of the original with these changes made, and the
-- original prints as before.
pub new_name_from-changed :
    (c : Encoding) (n : Name) (st : Store) (cs : List Change)
    → IsMade n st
    → let (copy, st') = new_name_from n st in
      (st'' : Store) × (make_all cs copy st' ≡ returned st'')
      × (contents copy.md st'' ≡ changed cs (contents n.md st))
      × (text_of c n st'' ≡ text_of c n st)
unfolding new_name_from
new_name_from-changed c n st cs made =
    let (copy, st') = new_name_from n st in
    let first = set_map-maps st.next (contents n.md st) (record st { next = suc st.next }) in
    let (st'', run, here, agrees) = make_all-Changed cs copy st.next st' refl in
    (
      st'',
      run,
      here ∙ ap (changed cs) first.0,
      text_of-contents c n st st''
          (metadata_of-kept n.md n.name st st'' made (λ b other. agrees b other ∙ first.1 b other)),
    )
