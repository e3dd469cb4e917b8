-- ===== src/Meter/Run.antt =====
-- The life of a meter of src/meter.cpp: creations, new views and restarts by any threads, in the
-- order in which they take the creation mutex.
use opentelemetry_c_wrapper.Prelude.{
  ℕ, ◌≡◌, refl, sym, ap, ◌∙◌, Bool, true, false, List, [], ◌∷◌, map, Option, none, some,
}
use mathlib.Core.List.Perm
use opentelemetry_c_wrapper.Meter.{InstrumentType, Handle, Impl, View}
use opentelemetry_c_wrapper.Meter.Key.{lower, instrument_key}
use opentelemetry_c_wrapper.Meter.Instruments.{
  Answers, Request, find_instrument, map_find, get_instrument, Outcome, create_locked,
}
use opentelemetry_c_wrapper.Meter.Instruments.Tables.{IsIndexed}
use opentelemetry_c_wrapper.Meter.Instruments.Outcomes.{create_locked-Creates}
use opentelemetry_c_wrapper.Meter.Instruments.Creation.{
  Ends, unchanged, old, new, create_locked-Ends,
}
use opentelemetry_c_wrapper.Meter.Views.{ViewAnswers, add_view_locked, install_provider}
use opentelemetry_c_wrapper.Meter.Views.Kept.{
  IsMirrored, Adds, refused, existing, added, add_view_locked-Adds, add_view_locked-Viewed,
  install_provider-Mirrors, install_provider-kept,
}

-- Equal keys by equal parts.
key-eq :
    (name name' : List ℕ) (t : InstrumentType)
    → map lower name ≡ map lower name'
    → instrument_key name t ≡ instrument_key name' t
unfolding instrument_key
key-eq name name' t e = rw e refl

-- The tables of the instruments only depend on those two members.
IsIndexed-same :
    (abi2 : Bool) (m n : Impl)
    → n.instrument ≡ m.instrument
    → n.instrument_index ≡ m.instrument_index
    → IsIndexed abi2 m
    → IsIndexed abi2 n
IsIndexed-same abi2 m n e x w = record {
  fresh = rw e w.fresh;
  sound = rw (e, x) w.sound;
  complete = rw (e, x) w.complete;
  usable = rw e w.usable;
}

IsMirrored-same :
    (equals : List ℕ → List ℕ → Bool) (m n : Impl)
    → n.view ≡ m.view
    → n.registered ≡ m.registered
    → IsMirrored equals m
    → IsMirrored equals n
IsMirrored-same equals m n e x w = record {
  fresh = rw e w.fresh;
  separate = rw e w.separate;
  mirrored = rw (e, x) w.mirrored;
}

-- A creation leaves the views alone, and a new view the instruments.
Ends-IsMirrored :
    (equals : List ℕ → List ℕ → Bool) (abi2 : Bool) (m : Impl) (key : List ℕ) (r : Outcome)
    → IsMirrored equals m
    → Ends abi2 m key r
    → IsMirrored equals r.1
Ends-IsMirrored equals abi2 m key r w (unchanged) = w
Ends-IsMirrored equals abi2 m key r w (old e) = w
Ends-IsMirrored equals abi2 m key r w (new h e v k) = IsMirrored-same equals m _ refl refl w

Adds-IsIndexed :
    (equals : List ℕ → List ℕ → Bool) (abi2 : Bool) (m : Impl) (v : View) (r : Option ℕ × Impl)
    → IsIndexed abi2 m
    → Adds equals m v r
    → IsIndexed abi2 r.1
Adds-IsIndexed equals abi2 m v r w refused = w
Adds-IsIndexed equals abi2 m v r w (existing i e) = w
Adds-IsIndexed equals abi2 m v r w (added n e es id vs ins ix) = IsIndexed-same abi2 m n ins ix w

-- What a thread does to the tables while it holds the creation mutex.
pub data Event : Type 0 where
  creates : List ℕ → Request → Answers → Event
  adds_view : Option (List ℕ) → View → ViewAnswers → Event
  starts : Option (List ℕ) → Bool → (ℕ → ViewAnswers) → Event

-- All calls meet the same SDK.
pub step : (List ℕ → List ℕ → Bool) → Bool → Event → Impl → Impl
step equals abi2 (creates name q a) m = (create_locked m name q (record a { abi2 = abi2 })).1
step equals abi2 (adds_view scope v a) m = (add_view_locked equals scope m v a).1
step equals abi2 (starts scope opened a) m = (install_provider scope opened m a).1

pub run : (List ℕ → List ℕ → Bool) → Bool → List Event → Impl → Impl
unfolding step
run equals abi2 [] m = m
run equals abi2 (e ∷ es) m = run equals abi2 es (step equals abi2 e m)

-- otel_meter_new: empty tables.
abbrev pub new_impl : Impl
new_impl = record {
  has_meter = false;
  has_provider = false;
  registered = [];
  instrument = record { entries = []; id = 0; peak_size = 0 };
  instrument_index = [];
  view = record { entries = []; id = 0; peak_size = 0 };
}

pub record Agrees (equals : List ℕ → List ℕ → Bool) (abi2 : Bool) (m : Impl) : Type 0 where
  pub indexed : IsIndexed abi2 m
  pub mirrored : IsMirrored equals m

module _ (equals : List ℕ → List ℕ → Bool) (abi2 : Bool)
    (same : (name : List ℕ) → equals name name ≡ true) where
  step-Agrees :
      (e : Event) (m : Impl) → Agrees equals abi2 m → Agrees equals abi2 (step equals abi2 e m)
  unfolding step
  step-Agrees (creates name q a) m w = record {
    indexed = (create_locked-Creates m name q (record a { abi2 = abi2 }) w.indexed).valid;
    mirrored =
        Ends-IsMirrored equals abi2 m (instrument_key name q.type)
          (create_locked m name q (record a { abi2 = abi2 })) w.mirrored
          (create_locked-Ends m name q (record a { abi2 = abi2 }));
  }
  step-Agrees (adds_view scope v a) m w = record {
    indexed =
        Adds-IsIndexed equals abi2 m v (add_view_locked equals scope m v a) w.indexed
          (add_view_locked-Adds equals scope m v a);
    mirrored = (add_view_locked-Viewed equals scope m v a (same v.name) w.mirrored).valid;
  }
  step-Agrees (starts scope opened a) m w = record {
    indexed =
        let k = install_provider-kept scope opened m a in
        IsIndexed-same abi2 m (install_provider scope opened m a).1 k.0 k.1 w.indexed;
    mirrored = (install_provider-Mirrors equals scope opened m a w.mirrored).2;
  }

  new_impl-Agrees : Agrees equals abi2 new_impl
  new_impl-Agrees = record {
    indexed = record {
      fresh = λ i le. unfold map_find in refl;
      sound = λ key i e. absurd (cc (e, find_none key));
      complete = λ i h e. absurd (cc (e, map_none {V = Handle} i));
      usable = λ i h e. absurd (cc (e, map_none {V = Handle} i));
    };
    mirrored = record {
      fresh = λ i le. unfold map_find in refl;
      separate = tt;
      mirrored = Perm.refl _;
    };
  }
    where
      find_none : (key : List ℕ) → find_instrument [] key ≡ none
      find_none key = unfold find_instrument in refl

      map_none : {V : Type 0} (i : ℕ) → map_find {V = V} [] i ≡ none
      map_none i = unfold map_find in refl

  run-Agrees :
      (es : List Event) (m : Impl)
      → Agrees equals abi2 m
      → Agrees equals abi2 (run equals abi2 es m)
  unfolding run
  run-Agrees [] m w = w
  run-Agrees (e ∷ es) m w = run-Agrees es (step equals abi2 e m) (step-Agrees e m w)

-- Creations, new views and starts in any order, with any of their allocations and insertions
-- failing, leave a new meter with agreeing tables, when the SDK finds every name equal to itself:
-- the index names the handles, each of them can be used, and the provider has the recorded views.
pub run-new_impl :
    (equals : List ℕ → List ℕ → Bool) (abi2 : Bool) (es : List Event)
    → ((name : List ℕ) → equals name name ≡ true)
    → Agrees equals abi2 (run equals abi2 es new_impl)
run-new_impl equals abi2 es same =
    run-Agrees equals abi2 same es new_impl (new_impl-Agrees equals abi2 same)

-- In tables that agree, two instruments with one type and with names that are equal up to the case
-- of ASCII letters are one.
pub IsIndexed-unique :
    (abi2 : Bool) (m : Impl) (i j : ℕ) (h g : Handle)
    → IsIndexed abi2 m
    → map_find m.instrument.entries i ≡ some h
    → map_find m.instrument.entries j ≡ some g
    → map lower h.name ≡ map lower g.name
    → h.type ≡ g.type
    → i ≡ j
IsIndexed-unique abi2 m i j h g w at_i at_j names types = cc (
  w.complete i h at_i,
  w.complete j g at_j,
  key-eq h.name g.name h.type names,
  ap (instrument_key g.name) types,
)

get-found :
    (m : Impl) (name : List ℕ) (t : InstrumentType)
    → get_instrument m (some name) t false
      ≡ find_instrument m.instrument_index (instrument_key name t)
unfolding get_instrument
get-found m name t = refl

-- When otel_meter_create_instrument returned an identifier, on a meter whose tables agree,
-- otel_meter_get_instrument finds it by the name in any case, as long as there is memory for the
-- key.
pub create-get_instrument :
    (m : Impl) (name name' : List ℕ) (q : Request) (a : Answers) (i : ℕ)
    → IsIndexed a.abi2 m
    → (create_locked m name q a).0 ≡ some i
    → map lower name ≡ map lower name'
    → get_instrument (create_locked m name q a).1 (some name') q.type false ≡ some i
create-get_instrument m name name' q a i w e names =
    get-found ((create_locked m name q a).1) name' q.type
    ∙ ap (find_instrument (create_locked m name q a).1.instrument_index)
        (sym (key-eq name name' q.type names))
    ∙ (create_locked-Creates m name q a w).answers i e
