-- ===== src/Hpack/Dynamic/History.antt =====
-- Histories of the table of internal/hpack/dynamic.go, against the words of RFC 7541.
use zerodeps_hackk.Base.{
  ℕ, ◌+◌, ◌-◌, ◌≤◌, ◌≡◌, refl, sym, ap, subst, ◌∙◌, Bool, true, false, ltb, if◌then◌else◌, List, [],
  ◌∷◌, Option, none, some, length, arith, inl, inr, Bool-cases,
}
use zerodeps_hackk.H2.{Error, Field}
use zerodeps_hackk.Hpack.Dynamic.{
  DynamicTable, err_compression, entry_size, evict, evict_to_fit, set_ceiling, set_max, add,
  new_dynamic_table,
}
use zerodeps_hackk.Hpack.Dynamic.Eviction.{total, keep, total-keep, evict-keep}

-- What a table's users ask of it: an indexed field, a size update in a block, a new setting.
pub data Change : Type 0 where
  added : Field → Change
  max_set : ℕ → Change
  ceiling_set : ℕ → Change

abbrev pub changed : DynamicTable → Change → DynamicTable
changed dt (added f) = add dt f
changed dt (max_set n) = (set_max dt n).0
changed dt (ceiling_set n) = set_ceiling dt n

-- The same by the words of RFC 7541: no sizes are kept, and what is held is the longest run that
-- fits.
pub record Held : Type 0 where
  pub fields : List Field
  pub max : ℕ
  pub ceiling : ℕ

abbrev pub held : Held → Change → Held
held s (added f) = record s { fields = keep s.max (f ∷ s.fields) }
held s (max_set n) = if ltb s.ceiling n then s else record s { fields = keep n s.fields; max = n }
held s (ceiling_set n) =
    if ltb n s.max
    then record { fields = keep n s.fields; max = n; ceiling = n }
    else record s { ceiling = n }

abbrev pub changed_all : List Change → DynamicTable → DynamicTable
changed_all [] dt = dt
changed_all (c ∷ cs) dt = changed_all cs (changed dt c)

abbrev pub held_all : List Change → Held → Held
held_all [] s = s
held_all (c ∷ cs) s = held_all cs (held s c)

pub record Agrees (dt : DynamicTable) (s : Held) : Type 0 where
  pub same_fields : dt.entries ≡ s.fields
  pub size_total : dt.size ≡ total s.fields
  pub same_max : dt.max ≡ s.max
  pub same_ceiling : dt.ceiling ≡ s.ceiling
  pub size_fits : total s.fields ≤ s.max
  pub max_fits : s.max ≤ s.ceiling

-- A table whose maximum was changed, after the eviction.
refit-Agrees :
    (es : List Field) (max ceiling : ℕ)
    → max ≤ ceiling
    → Agrees
        (evict_to_fit (record { entries = es; size = total es; max = max; ceiling = ceiling }))
        (record { fields = keep max es; max = max; ceiling = ceiling })
unfolding evict_to_fit
refit-Agrees es max ceiling le = record {
  same_fields = ap (λ p. p.0) fit;
  size_total = ap (λ p. p.1) fit;
  same_max = refl;
  same_ceiling = refl;
  size_fits = total-keep max es;
  max_fits = le;
}
  where
    fit : evict (length es) 0 max es (total es) ≡ (keep max es, total (keep max es))
    fit =
        evict-keep (length es) 0 max es refl (omega arith)
        ∙ ap (λ room. (keep room es, total (keep room es))) (omega arith)

either :
    (above : Bool) (dt dt' : DynamicTable) (s s' : Held)
    → Agrees dt s
    → (above ≡ false → Agrees dt' s')
    → (let p : DynamicTable × Option Error =
          if above then (dt, some err_compression) else (dt', none) in
        Agrees p.0 (if above then s else s'))
either true dt dt' s s' v k = v
either false dt dt' s s' v k = k refl

changed-Agrees :
    (es : List Field) (max ceiling : ℕ) (c : Change)
    → total es ≤ max
    → max ≤ ceiling
    → Agrees
        (changed (record { entries = es; size = total es; max = max; ceiling = ceiling }) c)
        (held (record { fields = es; max = max; ceiling = ceiling }) c)
unfolding add set_max set_ceiling
changed-Agrees es max ceiling (added f) fits le = elim (Bool-cases (ltb max (entry_size f))) [
  | inl large ↦ rw large (record {
    same_fields = refl;
    size_total = refl;
    same_max = refl;
    same_ceiling = refl;
    size_fits = omega arith;
    max_fits = le;
  })
  | inr small ↦
      rw small
        (enters (ground arith) (evict-keep (length es) (entry_size f) max es refl (ground arith)))
]
  where
    left : List Field × ℕ
    left = evict (length es) (entry_size f) max es (total es)

    enters :
        entry_size f ≤ max
        → left ≡ (keep (max - entry_size f) es, total (keep (max - entry_size f) es))
        → Agrees
            (record {
              entries = f ∷ left.0;
              size = left.1 + entry_size f;
              max = max;
              ceiling = ceiling;
            })
            (record { fields = f ∷ keep (max - entry_size f) es; max = max; ceiling = ceiling })
    enters small e = record {
      same_fields = ap (λ p. f ∷ p.0) e;
      size_total = ap (λ p. p.1 + entry_size f) e ∙ omega arith;
      same_max = refl;
      same_ceiling = refl;
      size_fits = omega (arith, small, total-keep (max - entry_size f) es);
      max_fits = le;
    }
changed-Agrees es max ceiling (max_set n) fits le =
    either (ltb ceiling n) (record { entries = es; size = total es; max = max; ceiling = ceiling })
      (evict_to_fit (record { entries = es; size = total es; max = n; ceiling = ceiling }))
      (record { fields = es; max = max; ceiling = ceiling })
      (record { fields = keep n es; max = n; ceiling = ceiling })
      (record {
        same_fields = refl;
        size_total = refl;
        same_max = refl;
        same_ceiling = refl;
        size_fits = fits;
        max_fits = le;
      })
      (λ within. refit-Agrees es n ceiling (ground arith))
changed-Agrees es max ceiling (ceiling_set n) fits le = elim (Bool-cases (ltb n max)) [
  | inl lower ↦ rw lower (refit-Agrees es n n (omega arith))
  | inr higher ↦ rw higher (record {
    same_fields = refl;
    size_total = refl;
    same_max = refl;
    same_ceiling = refl;
    size_fits = fits;
    max_fits = ground arith;
  })
]

pub changed_all-Agrees :
    (cs : List Change) (dt : DynamicTable) (s : Held)
    → Agrees dt s
    → Agrees (changed_all cs dt) (held_all cs s)
changed_all-Agrees [] dt s v = v
changed_all-Agrees (c ∷ cs) dt s v = changed_all-Agrees cs (changed dt c) (held s c) (
    subst (λ d. Agrees (changed d c) (held s c)) (sym same)
      (changed-Agrees s.fields s.max s.ceiling c v.size_fits v.max_fits))
  where
    same :
        dt ≡ record { entries = s.fields; size = total s.fields; max = s.max; ceiling = s.ceiling }
    same i = record {
      entries = v.same_fields i;
      size = v.size_total i;
      max = v.same_max i;
      ceiling = v.same_ceiling i;
    }

-- Whatever fields are indexed, sizes set and ceilings imposed, in whichever order, the table holds
-- the longest run of its newest entries that fits its maximum, as RFC 7541 section 4 asks; its size
-- is the sum of theirs and within the maximum, which is within the ceiling.
pub new_dynamic_table-Agrees :
    (cs : List Change)
    → Agrees
        (changed_all cs new_dynamic_table)
        (held_all cs (record { fields = []; max = 4096; ceiling = 4096 }))
unfolding new_dynamic_table
new_dynamic_table-Agrees cs = changed_all-Agrees cs new_dynamic_table _ (record {
  same_fields = refl;
  size_total = refl;
  same_max = refl;
  same_ceiling = refl;
  size_fits = omega arith;
  max_fits = omega arith;
})
