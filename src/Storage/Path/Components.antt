-- ===== src/Storage/Path/Components.antt =====
-- What validate_logical_path of path.rs accepts, and that its result is its own logical name.
use graphloom.Base.{
  ℕ, ◌≡◌, refl, ap, sym, ◌∙◌, subst, Bool, true, false, List, [], ◌∷◌, ◌++◌, map, Text, text_eq,
  ◌==◌, nat_eq, ok, any, arith, append-nil, append_assoc, Bool-cases, inl, inr, ok-injective,
  text_beq,
}
use graphloom.Base.Preds.{All, All-append}
use graphloom.Storage.Path.{
  Component, root_dir, cur_dir, parent_dir, normal, first_component, split, later_component,
  later_components, components, is_relative, is_safe_path_component, normalize,
  validate_logical_path, path_to_logical,
}

abbrev pub IsSafe : Text → Type 0
IsSafe part = is_safe_path_component part ≡ true

abbrev has_slash : Text → Bool
has_slash = any (λ c. c == b'/')

split_plain : (part : Text) → has_slash part ≡ false → split part ≡ part ∷ []
unfolding split
split_plain [] h = refl
split_plain (c ∷ cs) h = ground (arith, split_plain cs)

split-append :
    (part rest : Text) → has_slash part ≡ false → split (part ++ b'/' ∷ rest) ≡ part ∷ split rest
unfolding split
split-append [] rest h = ground arith
split-append (c ∷ cs) rest h = ground (arith, split-append cs rest)

IsSafe-has_slash : (part : Text) → IsSafe part → has_slash part ≡ false
unfolding is_safe_path_component
IsSafe-has_slash part h = ground arith

split-path_to_logical :
    (part : Text) (parts : List Text)
    → All IsSafe (part ∷ parts)
    → split (path_to_logical (part ∷ parts)) ≡ part ∷ parts
unfolding path_to_logical
split-path_to_logical part [] h = split_plain part (IsSafe-has_slash part h.0)
split-path_to_logical part (next ∷ parts) h =
    split-append part (path_to_logical (next ∷ parts)) (IsSafe-has_slash part h.0)
    ∙ ap (λ l. part ∷ l) (split-path_to_logical next parts h.1)

later_component_safe :
    (part : Text) (rest : List Component)
    → IsSafe part
    → later_component part rest ≡ normal part ∷ rest
unfolding is_safe_path_component
later_component_safe part rest h = ground arith

later_components_safe :
    (parts : List Text) → All IsSafe parts → later_components parts ≡ map normal parts
unfolding later_components
later_components_safe [] h = refl
later_components_safe (part ∷ parts) h =
    later_component_safe part (later_components parts) h.0
    ∙ ap (λ l. normal part ∷ l) (later_components_safe parts h.1)

normalize_safe :
    (path : Text) (parts acc : List Text)
    → All IsSafe parts
    → normalize path (map normal parts) acc ≡ ok (acc ++ parts)
unfolding normalize
normalize_safe path [] acc h = ap ok (sym (append-nil acc))
normalize_safe path (part ∷ parts) acc h =
    rw (h.0, normalize)
      (normalize_safe path parts (acc ++ part ∷ []) h.1
        ∙ ap ok (append_assoc acc (part ∷ []) parts))

normalize-All :
    (path : Text) (cs : List Component) (acc parts : List Text)
    → All IsSafe acc
    → normalize path cs acc ≡ ok parts
    → All IsSafe parts
unfolding normalize
normalize-All path [] acc parts h e = subst (All IsSafe) (ok-injective e) h
normalize-All path (root_dir ∷ cs) acc parts h e = cc
normalize-All path (cur_dir ∷ cs) acc parts h e = cc
normalize-All path (parent_dir ∷ cs) acc parts h e = cc
normalize-All path (normal name ∷ cs) acc parts h e =
    elim (Bool-cases (is_safe_path_component name)) [
      | inl s ↦
          normalize-All path cs (acc ++ name ∷ []) parts
            (All-append IsSafe acc (name ∷ []) h (s, tt)) (ground arith)
      | inr s ↦ ground arith
    ]

pub validate_logical_path-All :
    (path : Text) (parts : List Text) → validate_logical_path path ≡ ok parts → All IsSafe parts
unfolding validate_logical_path
validate_logical_path-All [] parts h = subst (All IsSafe) (ok-injective h) tt
validate_logical_path-All (c ∷ cs) parts h = elim (Bool-cases (is_relative (c ∷ cs))) [
  | inl e ↦ normalize-All (c ∷ cs) (components (c ∷ cs)) [] parts tt (ground arith)
  | inr e ↦ ground arith
]

first_component_safe :
    (part : Text) (rest : List Component)
    → IsSafe part
    → first_component part rest ≡ normal part ∷ rest
unfolding is_safe_path_component
first_component_safe part rest h = ground arith

components-split :
    (c : ℕ) (cs part : Text) (parts : List Text)
    → split (c ∷ cs) ≡ part ∷ parts
    → components (c ∷ cs) ≡ first_component part (later_components parts)
unfolding components
components-split c cs part parts h = rw (h, components) refl

path_to_logical_cons :
    (c : ℕ) (cs : Text) (parts : List Text)
    → (rest : Text) × (path_to_logical ((c ∷ cs) ∷ parts) ≡ c ∷ rest)
unfolding path_to_logical
path_to_logical_cons c cs [] = (cs, refl)
path_to_logical_cons c cs (next ∷ parts) = (cs ++ b'/' ∷ path_to_logical (next ∷ parts), refl)

validate_split :
    (c : ℕ) (cs part : Text) (parts : List Text)
    → is_relative (c ∷ cs) ≡ true
    → All IsSafe (part ∷ parts)
    → split (c ∷ cs) ≡ part ∷ parts
    → validate_logical_path (c ∷ cs) ≡ ok (part ∷ parts)
unfolding validate_logical_path
validate_split c cs part parts r h e =
    let found : components (c ∷ cs) ≡ map normal (part ∷ parts) =
      components-split c cs part parts e
      ∙ first_component_safe part (later_components parts) h.0
      ∙ ap (λ l. normal part ∷ l) (later_components_safe parts h.1) in
    ground
      (arith, ap (λ l. normalize (c ∷ cs) l []) found ∙ normalize_safe (c ∷ cs) (part ∷ parts) [] h)

nil_unsafe : ¬ (IsSafe [])
unfolding is_safe_path_component text_beq
nil_unsafe h = cc

pub validate_logical_path-path_to_logical :
    (parts : List Text)
    → All IsSafe parts
    → validate_logical_path (path_to_logical parts) ≡ ok parts
unfolding validate_logical_path path_to_logical is_safe_path_component
validate_logical_path-path_to_logical [] h = refl
validate_logical_path-path_to_logical ([] ∷ parts) h = absurd (nil_unsafe h.0)
validate_logical_path-path_to_logical ((c ∷ cs) ∷ parts) h =
    let (rest, shape) = path_to_logical_cons c cs parts in
    let plain = IsSafe-has_slash (c ∷ cs) h.0 in
    subst (λ path. validate_logical_path path ≡ ok ((c ∷ cs) ∷ parts)) (sym shape)
      (validate_split c rest (c ∷ cs) parts (ground arith) h
        (sym (ap split shape) ∙ split-path_to_logical (c ∷ cs) parts h))

-- For any path that validate_logical_path accepts: every component of the result is safe, which means
-- that it is not empty, `.` or `..` and has no NUL, slash or backslash; and the logical name that the
-- result is written as is accepted again, with the same result.
pub validate_logical_path_again :
    (path : Text) (parts : List Text)
    → validate_logical_path path ≡ ok parts
    → All IsSafe parts × (validate_logical_path (path_to_logical parts) ≡ ok parts)
validate_logical_path_again path parts h =
    let safe = validate_logical_path-All path parts h in
    (safe, validate_logical_path-path_to_logical parts safe)

-- Two accepted paths have one logical name only if they have the same components.
pub path_to_logical-injective :
    (a b : List Text) → All IsSafe a → All IsSafe b → path_to_logical a ≡ path_to_logical b → a ≡ b
path_to_logical-injective a b ha hb e = ok-injective (
    sym (validate_logical_path-path_to_logical a ha)
    ∙ ap validate_logical_path e
    ∙ validate_logical_path-path_to_logical b hb)
