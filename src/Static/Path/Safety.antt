-- ===== src/Static/Path/Safety.antt =====
-- The names that internal/static/path.go makes of request targets.
use zerodeps_hackk.Base.{
  ℕ, ◌+◌, ◌-◌, ◌*◌, ◌<◌, ◌≡◌, ◌≢◌, refl, sym, subst, ◌⊎◌, inl, inr, Bool, true, false, ◌||◌, ◌==◌,
  eq_octets, Bool-cases, if◌then◌else◌, List, [], ◌∷◌, ◌++◌, Option, none, some, get_or, length,
  All, All-take, All-snoc, arith,
}
use zerodeps_hackk.Base.Text.{codes, index_byte, split}
use zerodeps_hackk.Base.Text.Split.{Lacks, split-join}
use zerodeps_hackk.Static.Path.{
  name_octet, unhex, escaped, push, unescape_plain, push_escaped, unescape, safe_segment, reserved,
  drop_last, walk, name_of, ends_empty, resolve_rooted, before, resolve,
}

-- A visible octet that no file system gives a meaning to.
abbrev pub Allowed : ℕ → Type 0
Allowed c =
    (0x20 < c)
    × (c ≢ 0x7f)
    × (c ≢ b'/')
    × (c ≢ b'\\')
    × (c ≢ b':')
    × (c ≢ b'*')
    × (c ≢ b'?')
    × (c ≢ b'"')
    × (c ≢ b'<')
    × (c ≢ b'>')
    × (c ≢ b'|')

-- One component of a path: not empty, no dot at either end (so neither `.` nor `..`), of allowed
-- octets, and not the name of a device.
pub record SafeSegment (s : List ℕ) : Type 0 where
  pub not_empty : 0 < length s
  pub no_dot_first : get_or s 0 0 ≢ b'.'
  pub no_dot_last : get_or s (length s - 1) 0 ≢ b'.'
  pub octets : All Allowed s
  pub no_device : reserved s ≡ false

name_octet-Allowed : (c : ℕ) → name_octet c ≡ true → Allowed c
unfolding index_byte
name_octet-Allowed c h = ground arith

abbrev Spelled : Option (List ℕ) → Type 0
Spelled none = Unit {0}
Spelled (some s) = All Allowed s

unescape_plain-Spelled : (c : ℕ) (o : Option (List ℕ)) → Spelled o → Spelled (unescape_plain c o)
unfolding unescape_plain push
unescape_plain-Spelled c none h = ground arith
unescape_plain-Spelled c (some s) h = elim (Bool-cases (name_octet c)) [
  | inl good ↦ rw good (name_octet-Allowed c good, h)
  | inr no_name ↦ rw no_name tt
]

abbrev OctetOf : Option ℕ → Type 0
OctetOf none = Unit {0}
OctetOf (some d) = Allowed d

guarded-OctetOf : (d : ℕ) → OctetOf (if name_octet d then some d else none)
guarded-OctetOf d = elim (Bool-cases (name_octet d)) [
  | inl good ↦ rw good (name_octet-Allowed d good)
  | inr no_name ↦ rw no_name tt
]

digits-OctetOf :
    (x y : Option ℕ)
    → OctetOf (elim x [
      | none ↦ none
      | some hi ↦ elim y [
        | none ↦ none
        | some lo ↦ if name_octet (hi * 16 + lo) then some (hi * 16 + lo) else none
      ]
    ])
digits-OctetOf none y = tt
digits-OctetOf (some hi) none = tt
digits-OctetOf (some hi) (some lo) = guarded-OctetOf (hi * 16 + lo)

push_escaped-Spelled :
    (d : Option ℕ) (o : Option (List ℕ)) → OctetOf d → Spelled o → Spelled (push_escaped d o)
unfolding push_escaped push
push_escaped-Spelled none o h k = tt
push_escaped-Spelled (some d) none h k = tt
push_escaped-Spelled (some d) (some s) h k = (h, k)

Spelled-elim :
    (b : Bool) (x y : Option (List ℕ))
    → Spelled x
    → Spelled y
    → Spelled (elim b [ true ↦ x | false ↦ y ])
Spelled-elim true x y h k = h
Spelled-elim false x y h k = k

unescape-Spelled : (seg : List ℕ) → Spelled (unescape seg)
unfolding unescape escaped
unescape-Spelled [] = tt
unescape-Spelled (c ∷ []) =
    Spelled-elim (c == b'%') none _ tt (unescape_plain-Spelled c (some []) tt)
unescape-Spelled (c ∷ a ∷ []) =
    Spelled-elim (c == b'%') none _ tt
      (unescape_plain-Spelled c (unescape (a ∷ [])) (unescape-Spelled (a ∷ [])))
unescape-Spelled (c ∷ a ∷ b ∷ s) =
    Spelled-elim (c == b'%') _ _
      (push_escaped-Spelled (escaped a b) (unescape s) (digits-OctetOf (unhex a) (unhex b))
        (unescape-Spelled s))
      (unescape_plain-Spelled c (unescape (a ∷ b ∷ s)) (unescape-Spelled (a ∷ b ∷ s)))

safe_segment-SafeSegment :
    (s : List ℕ) → 0 < length s → All Allowed s → safe_segment s ≡ true → SafeSegment s
unfolding safe_segment
safe_segment-SafeSegment s pos octets safe = record {
  not_empty = pos;
  no_dot_first = ground arith;
  no_dot_last = ground arith;
  octets = octets;
  no_device = ground arith;
}

abbrev Kept : Option (List (List ℕ)) → Type 0
Kept none = Unit {0}
Kept (some out) = All SafeSegment out

Kept-elim :
    (b : Bool) (x y : Option (List (List ℕ)))
    → (b ≡ true → Kept x)
    → (b ≡ false → Kept y)
    → Kept (elim b [ true ↦ x | false ↦ y ])
Kept-elim true x y h k = h refl
Kept-elim false x y h k = k refl

Kept-unescaped :
    (o : Option (List ℕ)) (f : List ℕ → Option (List (List ℕ)))
    → Spelled o
    → ((s : List ℕ) → All Allowed s → Kept (f s))
    → Kept (elim o [ none ↦ none | some s ↦ f s ])
Kept-unescaped none f h k = tt
Kept-unescaped (some s) f h k = k s h

not_empty : (s t : List ℕ) → eq_octets s [] || eq_octets s t ≡ false → 0 < length s
not_empty [] t h = absurd (cc)
not_empty (c ∷ s) t h = omega arith

walk-Kept : (raw out : List (List ℕ)) → All SafeSegment out → Kept (walk raw out)
unfolding walk drop_last
walk-Kept [] out h = h
walk-Kept (seg ∷ raw) out h = Kept-unescaped (unescape seg) _ (unescape-Spelled seg) λ s octets.
    Kept-elim (eq_octets s [] || eq_octets s (codes ".")) _ _ (λ _. walk-Kept raw out h)
      λ filled.
        Kept-elim (eq_octets s (codes "..")) _ _
          (λ _. walk-Kept raw (drop_last out) (All-take SafeSegment (length out - 1) out h))
          λ _.
            Kept-elim (safe_segment s) _ _
              (λ safe. walk-Kept raw (out ++ s ∷ []) (
                All-snoc SafeSegment out s h
                  (safe_segment-SafeSegment s (not_empty s (codes ".") filled) octets safe)))
              (λ _. tt)

Allowed-Lacks : (s : List ℕ) → All Allowed s → Lacks b'/' s
Allowed-Lacks [] h = tt
Allowed-Lacks (c ∷ s) (h, k) = (ground arith, Allowed-Lacks s k)

SafeSegment-Lacks : (out : List (List ℕ)) → All SafeSegment out → All (Lacks b'/') out
SafeSegment-Lacks [] h = tt
SafeSegment-Lacks (s ∷ out) (h, k) = (Allowed-Lacks s h.octets, SafeSegment-Lacks out k)

-- A name below the directory that is served: the directory itself, or components that are all safe.
abbrev pub Below : List ℕ → Type 0
Below name = (name ≡ codes ".") ⊎ All SafeSegment (split name b'/')

name_of-Below : (out : List (List ℕ)) → All SafeSegment out → Below (name_of out)
unfolding name_of
name_of-Below [] h = inl refl
name_of-Below (s ∷ out) h =
    inr (subst (All SafeSegment) (sym (split-join b'/' s out (SafeSegment-Lacks (s ∷ out) h))) h)

abbrev Names : Option (List ℕ × Bool) → Type 0
Names none = Unit {0}
Names (some (name, slash)) = Below name

walked-Names :
    (o : Option (List (List ℕ))) (slash : Bool)
    → Kept o
    → Names (elim o [ none ↦ none | some out ↦ some (name_of out, slash) ])
walked-Names none slash h = tt
walked-Names (some out) slash h = name_of-Below out h

rooted-Names : (path : List ℕ) → Names (resolve_rooted path)
unfolding resolve_rooted
rooted-Names path =
    walked-Names (walk (split path b'/') []) (ends_empty (split path b'/'))
      (walk-Kept (split path b'/') [] tt)

Names-if : (b : Bool) (o : Option (List ℕ × Bool)) → Names o → Names (if b then o else none)
Names-if true o h = h
Names-if false o h = tt

targeted-Names :
    (t : List ℕ)
    → Names (elim t [ [] ↦ none | c ∷ path ↦ if c == b'/' then resolve_rooted path else none ])
targeted-Names [] = tt
targeted-Names (c ∷ path) = Names-if (c == b'/') (resolve_rooted path) (rooted-Names path)

-- A name that any request target resolves to is `.`, the served directory, or it falls at its
-- slashes into components each of which is not empty, has no dot at either end (so is neither `.`
-- nor `..`), holds no blank, control octet or octet special to a file system, and names no device.
pub resolve-Below :
    (target name : List ℕ) (slash : Bool) → resolve target ≡ some (name, slash) → Below name
unfolding resolve
resolve-Below target name slash e = subst Names e (targeted-Names (before target b'?'))
