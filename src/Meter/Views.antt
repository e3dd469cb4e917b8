-- ===== src/Meter/Views.antt =====
-- The views of src/meter.cpp: otel_meter_get_view_id, otel_meter_view_register,
-- otel_meter_add_view, and the part of otel_meter_start that registers the recorded views with a
-- new provider. `equals` is the comparison of names by the SDK.
pub mod Kept
use opentelemetry_c_wrapper.Prelude.{
  ℕ, suc, Bool, true, false, not, ◌&&◌, ◌||◌, List, [], ◌∷◌, ◌++◌, Option, none, some, ◌==◌, leb,
  ltb, length, if◌then◌else◌,
}
use opentelemetry_c_wrapper.Meter.{
  InstrumentType, histogram_uint64, histogram_double, View, Map, Impl, Meter,
}
use opentelemetry_c_wrapper.Meter.Key.{as_int}
use opentelemetry_c_wrapper.Meter.Instruments.{map_find, map_erase, max}

-- The arguments of otel_meter_add_view; null pointers are none.
pub record ViewRequest : Type 0 where
  pub view_name : Option (List ℕ)
  pub view_desc : Option (List ℕ)
  pub instrument_name : Option (List ℕ)
  pub instrument_unit : Option (List ℕ)
  pub instrument_type : InstrumentType
  pub aggregation_type : ℕ
  pub bounds : Option (List ℕ)
  pub bounds_num : ℕ

-- What may fail: the allocation of the handle or its strings, the insertion, and the four
-- allocations of the registration.
pub record ViewAnswers : Type 0 where
  pub handle_fails : Bool
  pub emplace_throws : Bool
  pub config_fails : Bool
  pub instrument_selector_fails : Bool
  pub meter_selector_fails : Bool
  pub view_fails : Bool

-- OTELC_METRIC_AGGREGATION_HISTOGRAM and _DEFAULT; the last one is 5.
abbrev pub aggregation_histogram : ℕ
aggregation_histogram = 1

abbrev pub aggregation_default : ℕ
aggregation_default = 4

abbrev pub is_null {ℓ} : {A : Type ℓ} → Option A → Bool
is_null none = true
is_null (some a) = false

abbrev is_histogram : InstrumentType → Bool
is_histogram histogram_uint64 = true
is_histogram histogram_double = true
is_histogram t = false

-- The range checks, and that boundaries come with their number and on histograms only.
pub is_accepted : ViewRequest → Bool
is_accepted q =
    leb (as_int q.instrument_type) 13
    && leb q.aggregation_type 5
    && not (is_null q.bounds && ltb 0 q.bounds_num)
    && not (not (is_null q.bounds) && (q.bounds_num == 0))
    && not (not (is_null q.bounds) && not (is_histogram q.instrument_type))
    && not (
        not (is_null q.bounds)
        && not (q.aggregation_type == aggregation_default)
        && not (q.aggregation_type == aggregation_histogram))

abbrev pub or_empty : Option (List ℕ) → List ℕ
or_empty none = []
or_empty (some t) = t

-- The handle that the constructor makes.
abbrev pub view_of : List ℕ → List ℕ → ViewRequest → View
view_of name instrument q = record {
  name = name;
  desc = or_empty q.view_desc;
  instrument_name = instrument;
  instrument_unit = or_empty q.instrument_unit;
  instrument_type = q.instrument_type;
  aggregation_type = q.aggregation_type;
  bounds = or_empty q.bounds;
}

module _ (equals : List ℕ → List ℕ → Bool) where
  -- otel_meter_get_view_id: the first view with the name, in the order of the table.
  unfoldable pub get_view_id : List (ℕ × View) → List ℕ → Option ℕ
  get_view_id [] name = none
  get_view_id ((i, v) ∷ rest) name = if equals v.name name then some i else get_view_id rest name

abbrev has_bounds : List ℕ → Bool
has_bounds [] = false
has_bounds (b ∷ bs) = true

-- otel_meter_view_register: the views that the provider has afterwards, or none on an error.
pub view_register : Option (List ℕ) → View → ViewAnswers → List View → Option (List View)
view_register none v a views = none
view_register (some scope) v a views =
    if (has_bounds v.bounds && a.config_fails)
      || a.instrument_selector_fails
      || a.meter_selector_fails
      || a.view_fails
    then none
    else some (views ++ v ∷ [])

-- The insertion, and the registration that may undo it.
view_inserted : Impl → View → Impl
view_inserted m v = record m { view = record m.view { entries = (m.view.id, v) ∷ m.view.entries } }

view_registered : Impl → Option (List View) → Option ℕ × Impl
view_registered m none =
    (none, record m { view = record m.view { entries = map_erase m.view.entries m.view.id } })
view_registered m (some views) = (
  some m.view.id,
  record m {
    registered = views;
    view = record m.view {
      peak_size = max m.view.peak_size (length m.view.entries);
      id = suc m.view.id;
    };
  },
)

view_emplaced : Option (List ℕ) → Impl → View → ViewAnswers → Option View → Option ℕ × Impl
unfolding view_inserted view_registered
view_emplaced scope m v a (some old) = (none, m)
view_emplaced scope m v a none =
    if a.emplace_throws
    then (none, m)
    else view_registered (view_inserted m v) (view_register scope v a m.registered)

-- After the second look-up. A meter without a scope name or a provider is refused.
view_created : Option (List ℕ) → Impl → View → ViewAnswers → Option ℕ → Option ℕ × Impl
unfolding view_emplaced
view_created scope m v a (some i) = (some i, m)
view_created scope m v a none =
    if is_null scope || not m.has_provider || a.handle_fails
    then (none, m)
    else view_emplaced scope m v a (map_find m.view.entries m.view.id)

module _ (equals : List ℕ → List ℕ → Bool) where
  -- The part of otel_meter_add_view under the creation mutex.
  pub add_view_locked : Option (List ℕ) → Impl → View → ViewAnswers → Option ℕ × Impl
  unfolding view_created
  add_view_locked scope m v a = view_created scope m v a (get_view_id equals m.view.entries v.name)

  view_probed : Option (List ℕ) → Impl → View → ViewAnswers → Option ℕ → Option ℕ × Impl
  unfolding add_view_locked
  view_probed scope m v a (some i) = (some i, m)
  view_probed scope m v a none = add_view_locked scope m v a

  add_view_named :
      Option (List ℕ)
      → Impl
      → Option (List ℕ)
      → Option (List ℕ)
      → ViewRequest
      → ViewAnswers
      → Option ℕ × Impl
  unfolding view_probed
  add_view_named scope m none instrument q a = (none, m)
  add_view_named scope m (some name) none q a = (none, m)
  add_view_named scope m (some name) (some instrument) q a =
      if is_accepted q
      then view_probed scope m (view_of name instrument q) a
          (get_view_id equals m.view.entries name)
      else (none, m)

  -- otel_meter_add_view, when no other thread runs between its look-ups.
  pub add_view : Bool → Option (List ℕ) → Impl → ViewRequest → ViewAnswers → Option ℕ × Impl
  unfolding add_view_named
  add_view enabled scope m q a =
      if enabled then add_view_named scope m q.view_name q.instrument_name q a else (none, m)

-- The loop of otel_meter_start over the recorded views, on the views of the new provider; each
-- registration has its own answers.
pub register_all :
    Option (List ℕ) → List (ℕ × View) → (ℕ → ViewAnswers) → List View → Option (List View)
unfolding view_register
register_all scope [] a views = some views
register_all scope ((i, v) ∷ rest) a views = elim (view_register scope v (a i) views) [
  | none ↦ none
  | some more ↦ register_all scope rest a more
]

-- The installation of the new provider, if all views could be registered and otel_exporter_files_open
-- opened the files of the new exporters, which the flag says.
installed : Bool → Impl → Option (List View) → Bool × Impl
installed opened m none = (false, m)
installed false m (some views) = (false, m)
installed true m (some views) =
    (true, record m { has_meter = true; has_provider = true; registered = views })

pub install_provider : Option (List ℕ) → Bool → Impl → (ℕ → ViewAnswers) → Bool × Impl
unfolding installed register_all
install_provider scope opened m a = installed opened m (register_all scope m.view.entries a [])
