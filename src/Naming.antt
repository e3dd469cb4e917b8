-- ===== src/Naming.antt =====
-- How the name of a context picks a section of the configuration: yaml_probe_nstate and
-- yaml_resolve_prefix of src/yaml.cpp. Whether the document has a node at a path, which the YAML parser
-- answers, is a parameter. The message left in err is not modelled.
pub mod Blocks
pub mod Resolve
mod Examples
use opentelemetry_c_wrapper.Prelude.{
  ℕ, zero, suc, Bool, true, false, not, ◌&&◌, ◌||◌, List, [], ◌∷◌, ◌++◌, Option, none, some, ◌==◌,
  if◌then◌else◌, take, ltb, count,
}
use opentelemetry_c_wrapper.Heap.{Heap, malloc, free}

abbrev pub Text : Type 0
Text = List ℕ

-- OTEL_YAML_NAME_DEFAULT, "default", and OTEL_YAML_SCOPE_NAME, "scope_name".
abbrev pub default_name : Text
default_name = 100 ∷ 101 ∷ 102 ∷ 97 ∷ 117 ∷ 108 ∷ 116 ∷ []

abbrev pub scope_name : Text
scope_name = 115 ∷ 99 ∷ 111 ∷ 112 ∷ 101 ∷ 95 ∷ 110 ∷ 97 ∷ 109 ∷ 101 ∷ []

-- OTEL_YAML_BUFSIZ - 1: what snprintf writes into the buffer of a path, less the terminator.
abbrev pub path_bytes : ℕ
path_bytes = 4095

-- otelc_ctx_name_t.
pub data NState : Type 0 where
  unset_default : NState
  found : NState
  default : NState
  flat : NState
  not_found : NState
  unset_flat : NState
  unset_not_found : NState
  absent : NState

-- OTELC_STR_IS_VALID.
unfoldable pub is_valid : Option Text → Bool
is_valid none = false
is_valid (some []) = false
is_valid (some (c ∷ cs)) = true

abbrev pub text_of : Option Text → Text
text_of none = []
text_of (some t) = t

-- strchr(name, '%') != nullptr of a pointer that may be null.
unfoldable pub has_percent : Option Text → Bool
has_percent none = false
has_percent (some t) = ltb 0 (count 37 t)

-- strcmp(a, b) == 0.
pub same_text : Text → Text → Bool
same_text [] [] = true
same_text [] (d ∷ ds) = false
same_text (c ∷ cs) [] = false
same_text (c ∷ cs) (d ∷ ds) = (c == d) && same_text cs ds

-- "%s/%s".
unfoldable pub join : Text → Text → Text
join base name = base ++ 47 ∷ name

module _ (exists : Text → Bool) where
  -- A path that does not fit its buffer is cut off.
  unfoldable pub exists_cut : Text → Bool
  exists_cut path = exists (take path_bytes path)

  unfoldable pub named : Bool → Bool → Bool → NState
  named has_name has_default has_flat =
      if has_name
      then found
      else if has_default
      then default
      else if has_flat
      then flat
      else not_found

  unfoldable pub unnamed : Bool → Bool → NState
  unnamed has_default has_flat =
      if has_default then unset_default else if has_flat then unset_flat else unset_not_found

  -- yaml_probe_nstate; the first flag says that there is a document.
  unfoldable pub probe_nstate : Bool → Option Text → Option Text → Bool → NState
  unfolding exists_cut named unnamed is_valid join
  probe_nstate document base name name_set =
      let usable = document && is_valid base in
      let has_name =
        usable && name_set && is_valid name && exists_cut (join (text_of base) (text_of name)) in
      let has_default = usable && exists_cut (join (text_of base) default_name) in
      let has_flat = usable && exists_cut (join (text_of base) scope_name) in
      if usable && not (exists (text_of base))
      then absent
      else if name_set
      then named has_name has_default has_flat
      else unnamed has_default has_flat

  -- A resolved prefix: its block and its text, or OTELC_RET_ERROR.
  abbrev pub Prefix : Type 0
  Prefix = Option (ℕ × Text) × Heap

  -- The probe for the legacy flat layout.
  pub copy_base : Text → Option ℕ × Heap → Prefix
  copy_base base (none, h) = (none, h)
  copy_base base (some a, h) = (some (a, base), h)

  pub probe_flat : Text → Option ℕ × Heap → Prefix
  unfolding copy_base join
  probe_flat base (none, h) = (none, h)
  probe_flat base (some a, h) =
      if exists (join base scope_name) then copy_base base (malloc (free a h)) else (none, free a h)

  -- The loop over the contexts: a path is allocated, and freed again when it names no node.
  pub probe_context : Text → (Heap → Prefix) → Option ℕ × Heap → Prefix
  probe_context path rest (none, h) = (none, h)
  probe_context path rest (some a, h) = if exists path then (some (a, path), h) else rest (free a h)

  pub resolve_from : Text → List (Option Text) → Heap → Prefix
  unfolding probe_flat probe_context is_valid join
  resolve_from base [] h = probe_flat base (malloc h)
  resolve_from base (c ∷ cs) h =
      let rest = λ (g : Heap). resolve_from base cs g in
      if is_valid c then probe_context (join base (text_of c)) rest (malloc h) else rest h

  pub contexts : Option Text → Option Text → List (Option Text)
  contexts (some n) (some f) = if same_text n f then none ∷ some f ∷ [] else some n ∷ some f ∷ []
  contexts name fallback = name ∷ fallback ∷ []

  -- yaml_resolve_prefix; the flag says that the document and the pointer for the prefix are there.
  pub resolve_prefix : Bool → Option Text → Option Text → Option Text → Heap → Prefix
  unfolding resolve_from contexts is_valid has_percent same_text
  resolve_prefix pointers base name fallback h =
      let refused =
        not pointers
        || not (is_valid base)
        || not (is_valid name || is_valid fallback)
        || has_percent name
        || has_percent fallback in
      if refused then (none, h) else resolve_from (text_of base) (contexts name fallback) h
