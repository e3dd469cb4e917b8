-- ===== src/Meter/Instruments/Creation.antt =====
-- otel_meter_create_instrument of src/meter.cpp keeps the index and the map together.
use native.Mathlib.Decide.{ℕ_discrete}
use opentelemetry_c_wrapper.Prelude.{
  ℕ, suc, ◌≡◌, refl, sym, ap, ◌∙◌, Bool, true, false, List, [], ◌∷◌, Option, none, some, arith,
  length, Bool-cases, inl, inr, text-cases,
}
use opentelemetry_c_wrapper.Meter.{InstrumentType, Member, other, Handle, Impl, Call}
use opentelemetry_c_wrapper.Meter.Key.{instrument_key}
use opentelemetry_c_wrapper.Meter.Types.{
  new_member, is_valid, Dispatched, skipped, called, refused, observable_dispatch,
}
use opentelemetry_c_wrapper.Meter.Instruments.{
  find_instrument, map_find, Answers, Created, no_memory, no_pointer, no_name, made, Request,
  Outcome, undone, inserted, max, indexed, observed, with_callback, emplaced, stored, new_handle,
  constructed, rechecked, create_locked,
}
use opentelemetry_c_wrapper.Meter.Instruments.Tables.{
  find-head, find-tail, map_find-head, map_find-tail, map_erase-head, IsIndexed,
}

-- The state with a new instrument.
abbrev pub added : Impl → List ℕ → Handle → Impl
added m key h = record (inserted m h) {
  instrument_index = (key, m.instrument.id) ∷ m.instrument_index;
  instrument = record m.instrument {
    entries = (m.instrument.id, h) ∷ m.instrument.entries;
    peak_size = max m.instrument.peak_size (length ((m.instrument.id, h) ∷ m.instrument.entries));
    id = suc m.instrument.id;
  };
}

-- The three ways in which a creation ends.
pub data Ends (abi2 : Bool) (m : Impl) (key : List ℕ) : Outcome → Type 0 where
  unchanged : {cs : List Call} → Ends abi2 m key (none, m, cs)
  old : {i : ℕ} → find_instrument m.instrument_index key ≡ some i → Ends abi2 m key (some i, m, [])
  new :
      (h : Handle) {cs : List Call}
      → find_instrument m.instrument_index key ≡ none
      → is_valid abi2 h.type h.member ≡ true
      → instrument_key h.name h.type ≡ key
      → Ends abi2 m key (some m.instrument.id, added m key h, cs)

undone-inserted :
    (m : Impl) (h : Handle) (cs : List Call) → undone (inserted m h) cs ≡ (none, m, cs)
undone-inserted m h cs =
    ap (λ es. (none, record m { instrument = record m.instrument { entries = es } }, cs))
      (map_erase-head m.instrument.id h m.instrument.entries)

module _ (a : Answers) (m : Impl) (key : List ℕ) where
  Ends-undone : (h : Handle) (cs : List Call) → Ends a.abi2 m key (undone (inserted m h) cs)
  Ends-undone h cs = rw (undone-inserted m h cs) unchanged

  module _ (e : find_instrument m.instrument_index key ≡ none) (h : Handle)
      (v : is_valid a.abi2 h.type h.member ≡ true) (k : instrument_key h.name h.type ≡ key) where
    Ends-indexed : (cs : List Call) → Ends a.abi2 m key (indexed key a (inserted m h) cs)
    unfolding indexed
    Ends-indexed cs = elim (Bool-cases a.index_throws) [
      | inl t ↦ rw t (Ends-undone h cs)
      | inr t ↦ rw t (new h e v k)
    ]

    Ends-observed :
        (d : Dispatched) (c : ℕ) → Ends a.abi2 m key (observed key a (inserted m h) d h.member c)
    unfolding observed
    Ends-observed skipped c = Ends-indexed []
    Ends-observed called c = Ends-indexed _
    Ends-observed refused c = Ends-undone h []

    Ends-callback :
        (callback : Option ℕ) → Ends a.abi2 m key (with_callback key a (inserted m h) h callback)
    unfolding with_callback
    Ends-callback none = Ends-indexed []
    Ends-callback (some d) = Ends-observed (observable_dispatch a.abi2 h.type) d

    Ends-emplaced :
        (callback : Option ℕ) (o : Option Handle)
        → Ends a.abi2 m key (emplaced key a m h callback o)
    unfolding emplaced
    Ends-emplaced callback (some h') = unchanged
    Ends-emplaced callback none = elim (Bool-cases a.emplace_throws) [
      | inl t ↦ rw t unchanged
      | inr t ↦ rw t (Ends-callback callback)
    ]

  module _ (e : find_instrument m.instrument_index key ≡ none) where
    Ends-valid :
        (h : Handle) (callback : Option ℕ)
        → (is_valid a.abi2 h.type h.member ≡ true → instrument_key h.name h.type ≡ key)
        → Ends a.abi2 m key (stored key a m (some h) callback)
    unfolding stored
    Ends-valid h callback k = elim (Bool-cases (is_valid a.abi2 h.type h.member)) [
      | inl v ↦
          rw v (Ends-emplaced e h v (k v) callback (map_find m.instrument.entries m.instrument.id))
      | inr v ↦ rw v unchanged
    ]

    -- A handle that is valid kept the name and the type that it was made for.
    Ends-created :
        (name : List ℕ) (t : InstrumentType) (p : Member) (c : Created) (callback : Option ℕ)
        → instrument_key name t ≡ key
        → Ends a.abi2 m key (stored key a m (new_handle name t p c) callback)
    unfolding new_handle
    Ends-created name t p no_memory callback k = unfold stored in unchanged
    Ends-created name t p no_pointer callback k = Ends-valid _ callback (λ v. k)
    Ends-created name t p no_name callback k =
        Ends-valid _ callback (λ v. absurd (no_type a.abi2 p v))
      where
        no_type : (b : Bool) (q : Member) → is_valid b (other 4294967295) q ≡ true → ⊥
        no_type true q w = cc (w)
        no_type false q w = cc (w)
    Ends-created name t p made callback k = Ends-valid _ callback (λ v. k)

    Ends-constructed :
        (name : List ℕ) (q : Request) (o : Option Member)
        → instrument_key name q.type ≡ key
        → Ends a.abi2 m key (constructed key name q a m o)
    unfolding constructed
    Ends-constructed name q none k = unchanged
    Ends-constructed name q (some p) k = Ends-created name q.type p a.created q.callback k

-- Every creation ends in one of the three ways.
pub create_locked-Ends :
    (m : Impl) (name : List ℕ) (q : Request) (a : Answers)
    → Ends a.abi2 m (instrument_key name q.type) (create_locked m name q a)
unfolding create_locked
create_locked-Ends m name q a = go (find_instrument m.instrument_index key) refl
  where
    key : List ℕ
    key = instrument_key name q.type

    go :
        (o : Option ℕ)
        → find_instrument m.instrument_index key ≡ o
        → Ends a.abi2 m key (rechecked o key name q a m)
    go (some i) e = unfold rechecked in old e
    go none e =
        unfold rechecked in Ends-constructed a m key e name q (new_member a.abi2 q.type) refl

module _ (m : Impl) (key : List ℕ) (h : Handle) where
  abbrev entries' : List (ℕ × Handle)
  entries' = (m.instrument.id, h) ∷ m.instrument.entries

  abbrev index' : List (List ℕ × ℕ)
  index' = (key, m.instrument.id) ∷ m.instrument_index

  -- The new key and the new identifier answer with each other.
  found-new :
      (l : List ℕ) (i : ℕ) → l ≡ key → find_instrument index' l ≡ some i → i ≡ m.instrument.id
  found-new l i e q =
      cc (sym q ∙ ap (find_instrument index') e ∙ find-head key m.instrument.id m.instrument_index)

  entry-new : (i : ℕ) (g : Handle) → i ≡ m.instrument.id → map_find entries' i ≡ some g → g ≡ h
  entry-new i g e q =
      cc (sym q ∙ ap (map_find entries') e ∙ map_find-head m.instrument.id h m.instrument.entries)

  -- An old entry is still there, as the new identifier was free.
  pub entry-old :
      (i : ℕ) (g : Handle)
      → map_find m.instrument.entries m.instrument.id ≡ none
      → map_find m.instrument.entries i ≡ some g
      → map_find entries' i ≡ some g
  entry-old i g free q = elim (ℕ_discrete i m.instrument.id) [
    | yes e ↦ absurd (cc (sym q ∙ ap (map_find m.instrument.entries) e ∙ free))
    | no ne ↦ map_find-tail m.instrument.id i h m.instrument.entries ne ∙ q
  ]

  -- So is an old key.
  pub key-old :
      (l : List ℕ) (i : ℕ)
      → find_instrument m.instrument_index key ≡ none
      → find_instrument m.instrument_index l ≡ some i
      → find_instrument index' l ≡ some i
  key-old l i free q = elim (text-cases l key) [
    | inl e ↦ absurd (cc (sym q ∙ ap (find_instrument m.instrument_index) e ∙ free))
    | inr ne ↦ find-tail key l m.instrument.id m.instrument_index ne ∙ q
  ]

-- A new instrument keeps the tables together.
pub added-IsIndexed :
    (abi2 : Bool) (m : Impl) (key : List ℕ) (h : Handle)
    → find_instrument m.instrument_index key ≡ none
    → is_valid abi2 h.type h.member ≡ true
    → instrument_key h.name h.type ≡ key
    → IsIndexed abi2 m
    → IsIndexed abi2 (added m key h)
added-IsIndexed abi2 m key h e v k w = record {
  fresh = λ i le.
      map_find-tail m.instrument.id i h m.instrument.entries (λ q. omega arith)
      ∙ w.fresh i (omega arith);
  sound = λ l i q. elim (text-cases l key) [
    | inl same ↦ (
      h,
      ap (map_find (entries' m key h)) (found-new m key h l i same q)
          ∙ map_find-head m.instrument.id h m.instrument.entries,
      k ∙ sym same,
    )
    | inr apart ↦
        let (g, at, its) =
          w.sound l i (sym (find-tail key l m.instrument.id m.instrument_index apart) ∙ q) in
        (g, entry-old m key h i g (w.fresh m.instrument.id (omega arith)) at, its)
  ];
  complete = λ i g q. elim (ℕ_discrete i m.instrument.id) [
    | yes same ↦
        ap (λ x. find_instrument (index' m key h) (instrument_key x.name x.type))
          (entry-new m key h i g same q)
        ∙ ap (find_instrument (index' m key h)) k
        ∙ find-head key m.instrument.id m.instrument_index
        ∙ ap some (sym same)
    | no apart ↦
        key-old m key h (instrument_key g.name g.type) i e
          (w.complete i g (sym (map_find-tail m.instrument.id i h m.instrument.entries apart) ∙ q))
  ];
  usable = λ i g q. elim (ℕ_discrete i m.instrument.id) [
    | yes same ↦ ap (λ x. is_valid abi2 x.type x.member) (entry-new m key h i g same q) ∙ v
    | no apart ↦
        w.usable i g (sym (map_find-tail m.instrument.id i h m.instrument.entries apart) ∙ q)
  ];
}
