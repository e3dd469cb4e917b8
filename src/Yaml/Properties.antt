-- ===== src/Yaml/Properties.antt =====
-- yaml_get_node_v and yaml_get_node of src/yaml.cpp: the typed properties of a named node, read into
-- the variables of the caller. The formatting of a path, strtoll, strtod and the order of doubles
-- are parameters; an int64_t is its bits.
pub mod Ranges
pub mod Runs
use opentelemetry_c_wrapper.Prelude.{
  ℕ, zero, suc, ◌+◌, ◌*◌, ◌%◌, ◌^◌, Bool, true, false, not, ◌&&◌, ◌||◌, List, [], ◌∷◌, map, Option,
  none, some, ◌==◌, leb, if◌then◌else◌, length, take, eq_text,
}
use opentelemetry_c_wrapper.Heap.{Heap}
use opentelemetry_c_wrapper.Text.{strlcpy}
use opentelemetry_c_wrapper.TextMap.{TextMap}
use opentelemetry_c_wrapper.Meter.Key.{lower}
use opentelemetry_c_wrapper.Yaml.{Node, get_node_by_path, scalar_text, copied_text, yaml_find}
use opentelemetry_c_wrapper.Yaml.Sequences.{Read, is_empty, text_of, get_sequence}

-- The arguments after the path of a property, with what the pointers among them refer to. `given`
-- says that a pointer is not null.
pub data Slot (D : Type 0) : Type 0 where
  str_slot : (buffer : List ℕ) → (size : ℕ) → Slot D
  bool_slot : (value : ℕ) → Slot D
  int64_slot : (value : ℕ) → (min : ℕ) → (max : ℕ) → Slot D
  double_slot : (value : D) → (min : D) → (max : D) → Slot D
  map_slot : (given : Bool) → Option TextMap → Slot D
  unknown_slot : Slot D

pub record Property (D : Type 0) : Type 0 where
  pub is_mandatory : Bool
  pub path : Option (List ℕ)
  pub slot : Slot D

abbrev pub with_slot : {D : Type 0} → Property D → Slot D → Property D
with_slot p s = record { is_mandatory = p.is_mandatory; path = p.path; slot = s }

-- strrchr(s, '/') and strchr(s, '%') are no null pointers.
pub has_char : ℕ → List ℕ → Bool
has_char x [] = false
has_char x (c ∷ cs) = (c == x) || has_char x cs

-- strcasecmp is 0.
abbrev same_letters : List ℕ → List ℕ → Bool
same_letters s t = eq_text (map lower s) (map lower t)

-- "true", "1", "false" and "0".
pub bool_value : List ℕ → Option ℕ
bool_value t =
    if same_letters t (116 ∷ 114 ∷ 117 ∷ 101 ∷ []) || same_letters t (49 ∷ [])
    then some 1
    else if same_letters t (102 ∷ 97 ∷ 108 ∷ 115 ∷ 101 ∷ []) || same_letters t (48 ∷ [])
    then some 0
    else none

-- The order of two int64_t.
abbrev pub leb_int64 : ℕ → ℕ → Bool
leb_int64 a b = leb ((a + 2 ^ 63) % 2 ^ 64) ((b + 2 ^ 63) % 2 ^ 64)

-- What strtoll and strtod leave: the value, the index of `endptr`, and errno.
abbrev pub Scanned : Type 0 → Type 0
Scanned A = A × ℕ × ℕ

-- A number that ends with the text, without an error, in the range.
pub checked : {A : Type 0} → (A → A → Bool) → List ℕ → A → A → Scanned A → Option A
checked le t min max (v, n, errno) =
    if not (n == 0) && (n == length t) && (errno == 0) && le min v && le v max then some v else none

str_copied : List ℕ → ℕ → List ℕ → List ℕ
str_copied b n t = elim (strlcpy (some b) n (some t) 0).1 [ none ↦ b | some b' ↦ b' ]

-- One round of the loop: whether the property was found, or none for an error; what the
-- pointers refer to then, and the heap.
abbrev pub Round : Type 0 → Type 0
Round D = Option Bool × Slot D × Heap

-- An int result, the properties with what is stored for them, and the heap.
abbrev pub Outcome : Type 0 → Type 0
Outcome D = Option ℕ × List (Property D) × Heap

module _ {D : Type 0} (leb_double : D → D → Bool) (strtoll : List ℕ → Scanned ℕ)
    (strtod : List ℕ → Scanned D) where
  -- The branches on `type`; none is OTELC_RET_ERROR. Without a text nothing is stored.
  pub store : Slot D → Option (List ℕ) → Option (Slot D)
  unfolding str_copied bool_value checked
  store unknown_slot o = none
  store (map_slot given m) o = some (map_slot given m)
  store (str_slot b n) none = some (str_slot b n)
  store (bool_slot v) none = some (bool_slot v)
  store (int64_slot v min max) none = some (int64_slot v min max)
  store (double_slot v min max) none = some (double_slot v min max)
  store (str_slot b n) (some t) = some (str_slot (str_copied b n t) n)
  store (bool_slot v) (some t) = elim (bool_value t) [ none ↦ none | some w ↦ some (bool_slot w) ]
  store (int64_slot v min max) (some t) = elim (checked leb_int64 t min max (strtoll t)) [
    | none ↦ none
    | some w ↦ some (int64_slot w min max)
  ]
  store (double_slot v min max) (some t) = elim (checked leb_double t min max (strtod t)) [
    | none ↦ none
    | some w ↦ some (double_slot w min max)
  ]

  stored : Bool → Slot D → Heap → Option (Slot D) → Round D
  stored is_found s h none = (none, s, h)
  stored is_found s h (some s') = (some is_found, s', h)

  pub scalar_round : Bool → Slot D → Option (List ℕ) → Heap → Round D
  unfolding store stored
  scalar_round true s none h = (none, s, h)
  scalar_round false s none h = stored false s h (store s none)
  scalar_round mandatory s (some t) h = stored true s h (store s (some t))

  pub map_round : Bool → Bool → Read → Round D
  map_round mandatory given (none, m, h) = (none, map_slot given m, h)
  map_round mandatory given (some zero, m, h) =
      (if mandatory then none else some false, map_slot given m, h)
  map_round mandatory given (some (suc n), m, h) = (some true, map_slot given m, h)

  module _ (split : List ℕ → List (List ℕ)) (format : List ℕ → List ℕ → List ℕ)
      (subarg : List ℕ) where
    -- The text that the local buffer `subarg` holds, if the node is there.
    text_at : Option Node → List ℕ → Option (List ℕ)
    text_at doc path =
        let r =
          copied_text split subarg 4096
            (scalar_text split (get_node_by_path split doc (some path))) in
        elim r.0 [ none ↦ none | some zero ↦ none | some (suc n) ↦ some (text_of r.1) ]

    slot_round : Option Node → List ℕ → Bool → Slot D → Heap → Round D
    unfolding map_round scalar_round text_at
    slot_round doc path mandatory (map_slot given m) h =
        map_round mandatory given (get_sequence split doc (some path) given m h)
    slot_round doc path mandatory s h = scalar_round mandatory s (text_at doc path) h

    pub round : Option Node → List ℕ → Option (List ℕ) → Bool → Slot D → Heap → Round D
    unfolding slot_round has_char
    round doc name none mandatory s h = (none, s, h)
    round doc name (some path) mandatory s h =
        if has_char 47 path
        then slot_round doc (take 8191 (format path name)) mandatory s h
        else (none, s, h)

    pub get_all : Option Node → List ℕ → List (Property D) → ℕ → Heap → Outcome D
    unfolding round
    get_all doc name [] retval h = (some retval, [], h)
    get_all doc name (p ∷ ps) retval h =
        let r = round doc name p.path p.is_mandatory p.slot h in
        elim r.0 [
          | none ↦ (none, with_slot p r.1 ∷ ps, r.2)
          | some b ↦
              let q = get_all doc name ps (if b then suc retval else retval) r.2 in
              (q.0, with_slot p r.1 ∷ q.1, q.2)
        ]

    -- yaml_get_node_v; `desc` says that the description is there.
    pub get_node_v : Option Node → Bool → Option (List ℕ) → List (Property D) → Heap → Outcome D
    unfolding get_all
    get_node_v none desc name ps h = (none, ps, h)
    get_node_v (some root) false name ps h = (none, ps, h)
    get_node_v (some root) true none ps h = (none, ps, h)
    get_node_v (some root) true (some name) ps h =
        if is_empty name then (none, ps, h) else get_all (some root) name ps 0 h

    -- The name after it has been resolved.
    named : Option Node → Option (List ℕ) → List (Property D) → Heap → Outcome D
    unfolding get_node_v has_char
    named doc none ps h = (none, ps, h)
    named doc (some name) ps h =
        if is_empty name || has_char 37 name
        then (none, ps, h)
        else get_node_v doc true (some name) ps h

    resolved : Option Node → List (Property D) → Heap → Option ℕ × List ℕ → Outcome D
    unfolding named
    resolved doc ps h (none, arg) = (none, ps, h)
    resolved doc ps h (some zero, arg) = (some 0, ps, h)
    resolved doc ps h (some (suc n), arg) = named doc (some (text_of arg)) ps h

    -- yaml_get_node; `arg` is its local buffer.
    pub get_node :
        Option Node
        → Bool
        → Bool
        → Option (List ℕ)
        → Option (List ℕ)
        → List ℕ
        → List (Property D)
        → Heap
        → Outcome D
    unfolding resolved
    get_node none mandatory desc path name arg ps h = (none, ps, h)
    get_node (some root) mandatory false path name arg ps h = (none, ps, h)
    get_node (some root) mandatory true path (some name) arg ps h =
        named (some root) (some name) ps h
    get_node (some root) mandatory true none none arg ps h = named (some root) none ps h
    get_node (some root) mandatory true (some path) none arg ps h =
        if is_empty path
        then named (some root) none ps h
        else resolved (some root) ps h
            (yaml_find split (some root) mandatory true (some path) (some arg) 4096)
