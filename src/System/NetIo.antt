-- ===== src/System/NetIo.antt =====
-- `pernic_net_io_counters` and `net_io_counters` of pypsutil/_system.py. The platform's reading is
-- an argument: the counters of every interface, by name.
use pypsutil.Prelude.{
  ℕ, ◌+◌, ◌≡◌, refl, sym, ap, ◌∙◌, Option, none, some, [], ◌∷◌, Bool, true, false, arith,
  if◌then◌else◌, String, string_eq, Bool-cases, is_empty, ◌⊎◌, inl, inr,
}
use pypsutil.Prelude.Dict.{Dict, lookup, insert, NodupKeys, lookup-insert}
use pypsutil.Util.NetIoCounts.{NetIoCounts, nowrap, nowrap_same, Le, Le-nowrap}

abbrev pub Cache : Type 0
Cache = Dict String NetIoCounts

-- The loop over `pernic_counts.items()`: each object is changed in place and a value is cached.
nowrap_all : Cache → Cache → Cache × Cache
nowrap_all [] cache = ([], cache)
nowrap_all ((name, counts) ∷ rest) cache =
    let (counts', cached) = nowrap counts (lookup name cache) in
    let (rest', cache') = nowrap_all rest (insert name cached cache) in
    ((name, counts') ∷ rest', cache')

-- The result, and `_pernic_net_io_cache` after the call.
unfoldable pub pernic_net_io_counters : Bool → Cache → Cache → Cache × Cache
unfolding nowrap_all
pernic_net_io_counters true pernic_counts cache = nowrap_all pernic_counts cache
pernic_net_io_counters false pernic_counts cache = (pernic_counts, cache)

abbrev pub zero_counts : NetIoCounts
zero_counts = record {
  bytes_sent = 0;
  bytes_recv = 0;
  packets_sent = 0;
  packets_recv = 0;
  errin = 0;
  errout = 0;
  dropin = 0;
  dropout = 0;
}

-- One round of the loop over the interfaces: every field of `totals` grows.
abbrev pub add_counts : NetIoCounts → NetIoCounts → NetIoCounts
add_counts totals nic = record {
  bytes_sent = totals.bytes_sent + nic.bytes_sent;
  bytes_recv = totals.bytes_recv + nic.bytes_recv;
  packets_sent = totals.packets_sent + nic.packets_sent;
  packets_recv = totals.packets_recv + nic.packets_recv;
  errin = totals.errin + nic.errin;
  errout = totals.errout + nic.errout;
  dropin = totals.dropin + nic.dropin;
  dropout = totals.dropout + nic.dropout;
}

add_all : NetIoCounts → Cache → NetIoCounts
add_all totals [] = totals
add_all totals ((_, nic) ∷ rest) = add_all (add_counts totals nic) rest

unfoldable pub net_io_counters : Bool → Cache → Cache → Option NetIoCounts × Cache
unfolding pernic_net_io_counters add_all
net_io_counters wrap pernic_counts cache =
    let (all, cache') = pernic_net_io_counters wrap pernic_counts cache in
    (if is_empty all then none else some (add_all zero_counts all), cache')

-- What the reading of one interface becomes, from what the cache held for it; no reading, nothing.
abbrev pub reported : Option NetIoCounts → Option NetIoCounts → Option NetIoCounts
reported old none = none
reported old (some counts) = some (nowrap counts old).0

abbrev pub or_old : Option NetIoCounts → Option NetIoCounts → Option NetIoCounts
or_old none old = old
or_old (some c) old = some c

nowrap_all_lem :
    (name : String) (counts cache : Cache)
    → NodupKeys counts
    → (lookup name (nowrap_all counts cache).0 ≡ reported (lookup name cache) (lookup name counts))
      × (lookup name (nowrap_all counts cache).1
          ≡ or_old (reported (lookup name cache) (lookup name counts)) (lookup name cache))
unfolding nowrap_all
nowrap_all_lem name [] cache u = (refl, refl)
nowrap_all_lem name ((n, c) ∷ rest) cache (new, u) =
    let cached = (nowrap c (lookup n cache)).1 in
    let ih = nowrap_all_lem name rest (insert n cached cache) u in
    elim (Bool-cases (string_eq.beq name n)) [
      | inl e ↦
          let same : name ≡ n = (string_eq.beq_iff name n).0 e in
          let gone : lookup name rest ≡ none = rw same new in
          (
            rw (e, same),
            rw (e, ih.1, gone, lookup-insert name n cached cache, e)
                (ap some (rw same (sym (nowrap_same c (lookup n cache))))),
          )
      | inr e ↦ (
        rw (e, ih.0, lookup-insert name n cached cache, e),
        rw (e, ih.1, lookup-insert name n cached cache, e),
      )
    ]

-- With `nowrap`, for an interface with a cached reading that is read once more: the reported
-- counters are the ones that the cache holds afterwards, and no field is below its cached value.
pub pernic_net_io_counters_grow :
    (name : String) (counts cache : Cache) {c old : NetIoCounts}
    → NodupKeys counts
    → lookup name counts ≡ some c
    → lookup name cache ≡ some old
    → let (result, cache') = pernic_net_io_counters true counts cache in
      (r : NetIoCounts) × (lookup name result ≡ some r) × (lookup name cache' ≡ some r) × Le old r
unfolding pernic_net_io_counters
pernic_net_io_counters_grow name counts cache {c} {old} u found before =
    let both = nowrap_all_lem name counts cache u in
    (
      (nowrap c (some old)).0,
      both.0 ∙ rw (found, before),
      both.1 ∙ rw (found, before),
      Le-nowrap c old,
    )

-- An interface that is not read again keeps its cached reading and is not reported.
pub pernic_net_io_counters_absent :
    (name : String) (counts cache : Cache)
    → NodupKeys counts
    → lookup name counts ≡ none
    → let (result, cache') = pernic_net_io_counters true counts cache in
      (lookup name result ≡ none) × (lookup name cache' ≡ lookup name cache)
unfolding pernic_net_io_counters
pernic_net_io_counters_absent name counts cache u absent =
    let both = nowrap_all_lem name counts cache u in (both.0 ∙ rw absent, both.1 ∙ rw absent)

-- The sum of one field over the interfaces.
abbrev pub total : (NetIoCounts → ℕ) → Cache → ℕ
total field [] = 0
total field ((_, c) ∷ rest) = field c + total field rest

add_all-total :
    (field : NetIoCounts → ℕ)
    → ((a b : NetIoCounts) → field (add_counts a b) ≡ field a + field b)
    → (t : NetIoCounts) (l : Cache) → field (add_all t l) ≡ field t + total field l
unfolding add_all
add_all-total field adds t [] = omega arith
add_all-total field adds t ((n, c) ∷ rest) =
    omega (arith, add_all-total field adds (add_counts t c) rest, adds t c)

-- Every field is the sum of that field over the interfaces.
pub record IsTotal (t : NetIoCounts) (l : Cache) : Type 0 where
  pub bytes_sent : t.bytes_sent ≡ total (λ c. c.bytes_sent) l
  pub bytes_recv : t.bytes_recv ≡ total (λ c. c.bytes_recv) l
  pub packets_sent : t.packets_sent ≡ total (λ c. c.packets_sent) l
  pub packets_recv : t.packets_recv ≡ total (λ c. c.packets_recv) l
  pub errin : t.errin ≡ total (λ c. c.errin) l
  pub errout : t.errout ≡ total (λ c. c.errout) l
  pub dropin : t.dropin ≡ total (λ c. c.dropin) l
  pub dropout : t.dropout ≡ total (λ c. c.dropout) l

add_all-IsTotal : (l : Cache) → IsTotal (add_all zero_counts l) l
add_all-IsTotal l = record {
  bytes_sent = add_all-total (λ c. c.bytes_sent) (λ a b. refl) zero_counts l ∙ omega arith;
  bytes_recv = add_all-total (λ c. c.bytes_recv) (λ a b. refl) zero_counts l ∙ omega arith;
  packets_sent = add_all-total (λ c. c.packets_sent) (λ a b. refl) zero_counts l ∙ omega arith;
  packets_recv = add_all-total (λ c. c.packets_recv) (λ a b. refl) zero_counts l ∙ omega arith;
  errin = add_all-total (λ c. c.errin) (λ a b. refl) zero_counts l ∙ omega arith;
  errout = add_all-total (λ c. c.errout) (λ a b. refl) zero_counts l ∙ omega arith;
  dropin = add_all-total (λ c. c.dropin) (λ a b. refl) zero_counts l ∙ omega arith;
  dropout = add_all-total (λ c. c.dropout) (λ a b. refl) zero_counts l ∙ omega arith;
}

-- The totals: none if no interface is reported, else the sums, field by field, of exactly what
-- `pernic_net_io_counters` reports for the same reading; the cache changes in the same way.
pub net_io_counters-IsTotal :
    (wrap : Bool) (counts cache : Cache)
    → let (result, cache') = pernic_net_io_counters wrap counts cache in
      ((net_io_counters wrap counts cache).1 ≡ cache')
      × (((result ≡ []) × ((net_io_counters wrap counts cache).0 ≡ none))
          ⊎ ((t : NetIoCounts) × ((net_io_counters wrap counts cache).0 ≡ some t)
              × IsTotal t result))
unfolding net_io_counters
net_io_counters-IsTotal wrap counts cache =
    (refl, totals (pernic_net_io_counters wrap counts cache).0)
  where
    totals :
        (l : Cache)
        → ((l ≡ []) × ((if is_empty l then none else some (add_all zero_counts l)) ≡ none))
          ⊎ ((t : NetIoCounts) × ((if is_empty l then none else some (add_all zero_counts l))
                ≡ some t)
              × IsTotal t l)
    totals [] = inl (refl, refl)
    totals (x ∷ l) = inr (add_all zero_counts (x ∷ l), refl, add_all-IsTotal (x ∷ l))
