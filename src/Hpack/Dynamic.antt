-- ===== src/Hpack/Dynamic.antt =====
-- internal/hpack/dynamic.go: the dynamic table of one direction of a connection. The first entry is
-- the newest. Sizes are natural numbers; a subtraction here is of an entry's size from a sum that
-- holds it.
pub mod Eviction
pub mod History
pub mod Search
use zerodeps_hackk.Base.{
  ℕ, zero, suc, ◌+◌, ◌-◌, Bool, true, false, ◌==◌, ltb, leb, ◌&&◌, ◌||◌, not, if◌then◌else◌, List,
  [], ◌∷◌, Option, none, some, length, take, get_elem?, eq_octets,
}
use zerodeps_hackk.H2.{Error, external, Field}

abbrev pub default_dynamic_table_size : ℕ
default_dynamic_table_size = 4096

-- hpack.ErrCompression.
abbrev pub err_compression : Error
err_compression = external 2

abbrev pub entry_size : Field → ℕ
entry_size f = length f.name + length f.value + 32

pub record DynamicTable : Type 0 where
  pub entries : List Field
  pub size : ℕ
  pub max : ℕ
  pub ceiling : ℕ

unfoldable pub new_dynamic_table : DynamicTable
new_dynamic_table = record {
  entries = [];
  size = 0;
  max = default_dynamic_table_size;
  ceiling = default_dynamic_table_size;
}

-- The size of the last of `suc n` entries.
abbrev pub last_size : List Field → ℕ → ℕ
last_size es n = elim (get_elem? es n) [ some f ↦ entry_size f | none ↦ 0 ]

-- `for size+extra > max && len(entries) > 0`, on as many entries as the number says: the last one
-- is dropped, and its size with it.
unfoldable pub evict : ℕ → ℕ → ℕ → List Field → ℕ → List Field × ℕ
evict zero extra max es size = (es, size)
evict (suc n) extra max es size =
    let rest = evict n extra max (take n es) (size - last_size es n) in
    if ltb max (size + extra) then rest else (es, size)

unfoldable pub evict_to_fit : DynamicTable → DynamicTable
unfolding evict
evict_to_fit dt =
    let (es, size) = evict (length dt.entries) 0 dt.max dt.entries dt.size in
    record dt { entries = es; size = size }

unfoldable pub set_ceiling : DynamicTable → ℕ → DynamicTable
unfolding evict_to_fit
set_ceiling dt n =
    if ltb n dt.max
    then evict_to_fit (record dt { ceiling = n; max = n })
    else record dt { ceiling = n }

unfoldable pub set_max : DynamicTable → ℕ → DynamicTable × Option Error
unfolding evict_to_fit
set_max dt n =
    if ltb dt.ceiling n
    then (dt, some err_compression)
    else (evict_to_fit (record dt { max = n }), none)

unfoldable pub add : DynamicTable → Field → DynamicTable
unfolding evict
add dt f =
    let esize = entry_size f in
    if ltb dt.max esize
    then record dt { entries = []; size = 0 }
    else (let (es, size) = evict (length dt.entries) esize dt.max dt.entries dt.size in
        record dt { entries = f ∷ es; size = size + esize })

-- A 1-based offset; none where Go returns false.
unfoldable pub get : DynamicTable → ℕ → Option Field
get dt zero = none
get dt (suc i) = get_elem? dt.entries i

-- From the entry at index `i` on, with the offset of the first entry of that name so far.
unfoldable pub find_from : List ℕ → List ℕ → List Field → ℕ → ℕ → ℕ × Bool
find_from name value [] i name_offset = (name_offset, false)
find_from name value (e ∷ es) i name_offset =
    let first = if name_offset == 0 then suc i else name_offset in
    let skipped = find_from name value es (suc i) name_offset in
    let named = find_from name value es (suc i) first in
    if not (eq_octets e.name name)
    then skipped
    else if eq_octets e.value value
    then (suc i, true)
    else named

unfoldable pub find : DynamicTable → List ℕ → List ℕ → ℕ × Bool
unfolding find_from
find dt name value = find_from name value dt.entries 0 0

unfoldable pub find_name_from : List ℕ → List Field → ℕ → ℕ
find_name_from name [] i = 0
find_name_from name (e ∷ es) i =
    let rest = find_name_from name es (suc i) in if eq_octets e.name name then suc i else rest

unfoldable pub find_name : DynamicTable → List ℕ → ℕ
unfolding find_name_from
find_name dt name = find_name_from name dt.entries 0
