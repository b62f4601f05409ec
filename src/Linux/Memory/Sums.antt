-- ===== src/Linux/Memory/Sums.antt =====
-- The memory figures that come from the maps.
use pypsutil.Prelude.{ℕ, ◌+◌, ◌≡◌, ◌∙◌, inl, inr, List, [], ◌∷◌, arith}
use pypsutil.Prelude.Exn.{ok, Result-cases}
use pypsutil.Linux.Status.{Entries}
use pypsutil.Linux.Maps.{
  SizeName, ProcessMemoryMap, ProcessMemoryMapGrouped, memory_maps_grouped, sum_of,
}
use pypsutil.Linux.Maps.Totals.{memory_maps_grouped-sum_of}
use pypsutil.Linux.Memory.{
  ProcessMemoryFullInfo, add_maps, memory_loop, full_of, proc_memory_full_info,
}

abbrev pub map_total : SizeName → List ProcessMemoryMap → ℕ
map_total n maps = sum_of (λ (m : ProcessMemoryMap). m.sizes n) maps

abbrev pub group_total : SizeName → List ProcessMemoryMapGrouped → ℕ
group_total n groups = sum_of (λ (g : ProcessMemoryMapGrouped). g.sizes n) groups

add_maps-map_total :
    (p u d : ℕ) (maps : List ProcessMemoryMap)
    → ((add_maps (p, u, d) maps).0 ≡ p + map_total SizeName.pss maps)
      × ((add_maps (p, u, d) maps).1
          ≡ u + (map_total SizeName.private_clean maps + map_total SizeName.private_dirty maps))
      × ((add_maps (p, u, d) maps).2
          ≡ d + (map_total SizeName.private_dirty maps + map_total SizeName.shared_dirty maps))
unfolding add_maps
add_maps-map_total p u d [] = (omega arith, omega arith, omega arith)
add_maps-map_total p u d (m ∷ maps) =
    let (a, b, c) =
      add_maps-map_total (p + m.sizes SizeName.pss)
        (u + (m.sizes SizeName.private_clean + m.sizes SizeName.private_dirty))
        (d + (m.sizes SizeName.private_dirty + m.sizes SizeName.shared_dirty)) maps in
    (omega (arith, a), omega (arith, b), omega (arith, c))

from_maps :
    (es : Entries) (ms : List ProcessMemoryMap) {i : ProcessMemoryFullInfo}
    → proc_memory_full_info es (ok ms) ≡ ok i
    → (i.pss ≡ map_total SizeName.pss ms)
      × (i.uss ≡ map_total SizeName.private_clean ms + map_total SizeName.private_dirty ms)
      × (i.dirty ≡ map_total SizeName.private_dirty ms + map_total SizeName.shared_dirty ms)
unfolding proc_memory_full_info
from_maps (es, ended) ms {i} ran = elim (Result-cases (memory_loop [] es ended)) [
  | inr (ex, e) ↦ absurd (cc (rw e at ran))
  | inl (vals, e) ↦
      let same : full_of vals ms ≡ i = cc (rw e at ran) in
      let (p, u, d) = add_maps-map_total 0 0 0 ms in
      rw (← same) (omega (arith, p), omega (arith, u), omega (arith, d))
]

-- The full memory information agrees with the maps grouped by path: if the first is returned, the
-- second are too, and `pss`, `uss` and `dirty` are the sums over the groups of the proportional sizes,
-- of the private clean and dirty ones, and of the private and shared dirty ones.
pub proc_memory_full_info-group_total :
    (entries : Entries) (maps : List ProcessMemoryMap) {info : ProcessMemoryFullInfo}
    → proc_memory_full_info entries (ok maps) ≡ ok info
    → (groups : List ProcessMemoryMapGrouped) × (memory_maps_grouped maps ≡ ok groups)
      × (info.pss ≡ group_total SizeName.pss groups)
      × (info.uss
          ≡ group_total SizeName.private_clean groups + group_total SizeName.private_dirty groups)
      × (info.dirty
          ≡ group_total SizeName.private_dirty groups + group_total SizeName.shared_dirty groups)
proc_memory_full_info-group_total entries maps ran =
    let (groups, made, kept) = memory_maps_grouped-sum_of maps in
    let (p, u, d) = from_maps entries maps ran in
    (
      groups,
      made,
      p ∙ rw (kept SizeName.pss),
      u ∙ rw (kept SizeName.private_clean, kept SizeName.private_dirty),
      d ∙ rw (kept SizeName.private_dirty, kept SizeName.shared_dirty),
    )
