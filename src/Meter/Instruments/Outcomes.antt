-- ===== src/Meter/Instruments/Outcomes.antt =====
-- What a creation of src/meter.cpp answers and leaves, and that the invariant of the tables survives
-- any of them.
use opentelemetry_c_wrapper.Prelude.{ℕ, ◌≡◌, refl, ◌∙◌, Bool, List, none, some, arith}
use opentelemetry_c_wrapper.Meter.{Handle, Impl}
use opentelemetry_c_wrapper.Meter.Key.{instrument_key}
use opentelemetry_c_wrapper.Meter.Instruments.{
  find_instrument, map_find, Answers, Request, Outcome, create_locked,
}
use opentelemetry_c_wrapper.Meter.Instruments.Tables.{find-head, IsIndexed}
use opentelemetry_c_wrapper.Meter.Instruments.Creation.{
  Ends, unchanged, old, new, create_locked-Ends, added-IsIndexed, entry-old, key-old,
}

-- A creation that fails changes nothing; one that succeeds leaves its identifier under the key.
-- No handle and no key is lost.
pub record Creates (abi2 : Bool) (m : Impl) (key : List ℕ) (r : Outcome) : Type 0 where
  pub valid : IsIndexed abi2 r.1
  pub failed : r.0 ≡ none → r.1 ≡ m
  pub answers : (i : ℕ) → r.0 ≡ some i → find_instrument r.1.instrument_index key ≡ some i
  pub handles_kept :
      (i : ℕ) (h : Handle)
      → map_find m.instrument.entries i ≡ some h
      → map_find r.1.instrument.entries i ≡ some h
  pub keys_kept :
      (l : List ℕ) (i : ℕ)
      → find_instrument m.instrument_index l ≡ some i
      → find_instrument r.1.instrument_index l ≡ some i

Ends-Creates :
    (abi2 : Bool) (m : Impl) (key : List ℕ) (r : Outcome)
    → IsIndexed abi2 m
    → Ends abi2 m key r
    → Creates abi2 m key r
Ends-Creates abi2 m key r w (unchanged) = record {
  valid = w;
  failed = λ e. refl;
  answers = λ i e. absurd (cc (e));
  handles_kept = λ i h e. e;
  keys_kept = λ l i e. e;
}
Ends-Creates abi2 m key r w (old found) = record {
  valid = w;
  failed = λ e. refl;
  answers = λ i e. found ∙ e;
  handles_kept = λ i h e. e;
  keys_kept = λ l i e. e;
}
Ends-Creates abi2 m key r w (new h e v k) = record {
  valid = added-IsIndexed abi2 m key h e v k w;
  failed = λ q. absurd (cc (q));
  answers = λ i q. find-head key m.instrument.id m.instrument_index ∙ q;
  handles_kept = λ i g q. entry-old m key h i g (w.fresh m.instrument.id (omega arith)) q;
  keys_kept = λ l i q. key-old m key h l i e q;
}

-- otel_meter_create_instrument, from the point where it holds the creation mutex, on a meter whose
-- tables agree: they agree afterwards; a call that fails leaves the tables as they were; after
-- one that succeeds the index answers its key with the identifier that it returned; and no
-- earlier instrument is lost.
pub create_locked-Creates :
    (m : Impl) (name : List ℕ) (q : Request) (a : Answers)
    → IsIndexed a.abi2 m
    → Creates a.abi2 m (instrument_key name q.type) (create_locked m name q a)
create_locked-Creates m name q a w =
    Ends-Creates a.abi2 m (instrument_key name q.type) (create_locked m name q a) w
      (create_locked-Ends m name q a)
