-- ===== src/TextMap/Add/Total.antt =====
-- otelc_text_map_add of src/util.cpp as a whole, on every branch.
use opentelemetry_c_wrapper.Prelude.{
  ℕ, ◌≡◌, refl, ap, ◌∙◌, Bool, true, false, Option, arith, append-nil,
}
use opentelemetry_c_wrapper.Heap.{Heap}
use opentelemetry_c_wrapper.TextMap.{TextMap, Str, Flags}
use opentelemetry_c_wrapper.TextMap.Owned.{IsValid, Holds, owned}
use opentelemetry_c_wrapper.TextMap.Add.{Grown, as_index, add_grown, add_pair, grow}
use opentelemetry_c_wrapper.TextMap.Add.Keeps.{keys-Same, values-Same}
use opentelemetry_c_wrapper.TextMap.Add.Growth.{Grows, grow-Grows}
use opentelemetry_c_wrapper.TextMap.Add.Entry.{Adds, Adds-entry, IsIndex}

IsIndex-same :
    (b : Bool) (r : Option ℕ) (m n l : TextMap)
    → n.count ≡ m.count
    → IsIndex b r n l
    → IsIndex b r m l
IsIndex-same false r m n l e i = (i.0, i.1 ∙ e)
IsIndex-same true r m n l e i = (i.0 ∙ ap as_index e, omega (arith, e, i.1))

module _ (m : TextMap) (k : Str) (kn : ℕ) (s : Str) (sn : ℕ) (f : Flags) (h : Heap) where
  Adds-grown : (r : Grown) → Grows m h r → Adds m h f k kn s sn (add_grown k kn s sn f r)
  unfolding add_grown
  Adds-grown (false, n, g) w = record {
    stored = false;
    valid = w.keeps.valid;
    balance = λ p. omega (arith, w.keeps.balance p);
    no_bad_free = w.keeps.no_bad_free;
    index = (refl, w.keeps.same.same_count);
    keys_added = rw append-nil (keys-Same m n w.keeps.same);
    values_added = rw append-nil (values-Same m n w.keeps.same);
    same_addr = w.keeps.same.same_addr;
    same_dynamic = w.keeps.same.same_dynamic;
  }
  Adds-grown (true, n, g) w =
      let a = Adds-entry n k kn s sn f g w.keeps.valid (w.room refl) in
      record {
        stored = a.stored;
        valid = a.valid;
        balance = λ p. omega (arith, w.keeps.balance p, a.balance p);
        no_bad_free = a.no_bad_free ∙ w.keeps.no_bad_free;
        index = IsIndex-same a.stored _ m n _ w.keeps.same.same_count a.index;
        keys_added = rw (← keys-Same m n w.keeps.same) a.keys_added;
        values_added = rw (← values-Same m n w.keeps.same) a.values_added;
        same_addr = a.same_addr ∙ w.keeps.same.same_addr;
        same_dynamic = a.same_dynamic ∙ w.keeps.same.same_dynamic;
      }

  -- For a valid map whose blocks are live, whatever allocations fail: the map stays valid; a
  -- success appends exactly the pair and returns its index, cut to an int, a failure changes no entry; the
  -- references of the heap change as those of the map do, up to the caller's blocks that a success
  -- hands over; no block is freed badly.
  pub add_pair-Adds :
      IsValid m → Holds (owned m) h → Adds m h f k kn s sn (add_pair m k kn s sn f h)
  unfolding add_pair
  add_pair-Adds v l = Adds-grown (grow m h) (grow-Grows m h v l)
