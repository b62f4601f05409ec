-- ===== src/Util/NetIoCounts.antt =====
-- `NetIOCounts` of pypsutil/_util.py, with its `_nowrap`.
use pypsutil.Prelude.{
  ℕ, ◌+◌, ◌≤◌, ◌<◌, ◌*◌, ◌≡◌, refl, Option, none, some, arith, ltb, if◌then◌else◌,
}

pub record NetIoCounts : Type 0 where
  pub bytes_sent : ℕ
  pub bytes_recv : ℕ
  pub packets_sent : ℕ
  pub packets_recv : ℕ
  pub errin : ℕ
  pub errout : ℕ
  pub dropin : ℕ
  pub dropout : ℕ

-- One round of the loop over the fields: the values that `self` and `cacheobj` get.
abbrev pub nowrap_field : ℕ → ℕ → ℕ × ℕ
nowrap_field self cache = if ltb self cache then (self + cache, self + cache) else (self, self)

-- The loop over all fields, by one component of the pair.
nowrap_with : (ℕ × ℕ → ℕ) → NetIoCounts → NetIoCounts → NetIoCounts
nowrap_with pick self cache = record {
  bytes_sent = pick (nowrap_field self.bytes_sent cache.bytes_sent);
  bytes_recv = pick (nowrap_field self.bytes_recv cache.bytes_recv);
  packets_sent = pick (nowrap_field self.packets_sent cache.packets_sent);
  packets_recv = pick (nowrap_field self.packets_recv cache.packets_recv);
  errin = pick (nowrap_field self.errin cache.errin);
  errout = pick (nowrap_field self.errout cache.errout);
  dropin = pick (nowrap_field self.dropin cache.dropin);
  dropout = pick (nowrap_field self.dropout cache.dropout);
}

-- The object after the call, and the object returned: a copy of `self`, or `cacheobj` as the loop
-- leaves it.
unfoldable pub nowrap : NetIoCounts → Option NetIoCounts → NetIoCounts × NetIoCounts
unfolding nowrap_with
nowrap self none = (self, self)
nowrap self (some cache) = (nowrap_with (λ p. p.0) self cache, nowrap_with (λ p. p.1) self cache)

-- Field by field.
pub record Le (a b : NetIoCounts) : Type 0 where
  pub bytes_sent : a.bytes_sent ≤ b.bytes_sent
  pub bytes_recv : a.bytes_recv ≤ b.bytes_recv
  pub packets_sent : a.packets_sent ≤ b.packets_sent
  pub packets_recv : a.packets_recv ≤ b.packets_recv
  pub errin : a.errin ≤ b.errin
  pub errout : a.errout ≤ b.errout
  pub dropin : a.dropin ≤ b.dropin
  pub dropout : a.dropout ≤ b.dropout

nowrap_field_same : (a b : ℕ) → (nowrap_field a b).0 ≡ (nowrap_field a b).1
nowrap_field_same a b = ground arith

nowrap_field_grows : (a b : ℕ) → b ≤ (nowrap_field a b).0
nowrap_field_grows a b = ground arith

nowrap_field_once : (a b : ℕ) → b ≤ a → (nowrap_field a b).0 ≡ a
nowrap_field_once a b h = ground arith

-- What the call leaves in `self` is what it returns for the cache.
pub nowrap_same :
    (self : NetIoCounts) (c : Option NetIoCounts) → (nowrap self c).0 ≡ (nowrap self c).1
unfolding nowrap
nowrap_same self none = refl
nowrap_same self (some c) = rw (
  nowrap_field_same self.bytes_sent c.bytes_sent,
  nowrap_field_same self.bytes_recv c.bytes_recv,
  nowrap_field_same self.packets_sent c.packets_sent,
  nowrap_field_same self.packets_recv c.packets_recv,
  nowrap_field_same self.errin c.errin,
  nowrap_field_same self.errout c.errout,
  nowrap_field_same self.dropin c.dropin,
  nowrap_field_same self.dropout c.dropout,
)

-- No field is below its cached value.
pub Le-nowrap : (self c : NetIoCounts) → Le c (nowrap self (some c)).0
unfolding nowrap
Le-nowrap self c = record {
  bytes_sent = nowrap_field_grows self.bytes_sent c.bytes_sent;
  bytes_recv = nowrap_field_grows self.bytes_recv c.bytes_recv;
  packets_sent = nowrap_field_grows self.packets_sent c.packets_sent;
  packets_recv = nowrap_field_grows self.packets_recv c.packets_recv;
  errin = nowrap_field_grows self.errin c.errin;
  errout = nowrap_field_grows self.errout c.errout;
  dropin = nowrap_field_grows self.dropin c.dropin;
  dropout = nowrap_field_grows self.dropout c.dropout;
}

-- A reading that is nowhere below the cached one is left as it is.
pub nowrap_growing : (self c : NetIoCounts) → Le c self → (nowrap self (some c)).0 ≡ self
unfolding nowrap
nowrap_growing self c h = rw (
  nowrap_field_once self.bytes_sent c.bytes_sent h.bytes_sent,
  nowrap_field_once self.bytes_recv c.bytes_recv h.bytes_recv,
  nowrap_field_once self.packets_sent c.packets_sent h.packets_sent,
  nowrap_field_once self.packets_recv c.packets_recv h.packets_recv,
  nowrap_field_once self.errin c.errin h.errin,
  nowrap_field_once self.errout c.errout h.errout,
  nowrap_field_once self.dropin c.dropin h.dropin,
  nowrap_field_once self.dropout c.dropout h.dropout,
)

-- After a reading of `bytes_sent` below the cached one, the same reading taken again is added again:
-- first the cached value and the reading are reported, then the cached value and twice the reading.
pub nowrap_repeated :
    (self c : NetIoCounts)
    → self.bytes_sent < c.bytes_sent
    → let once = (nowrap self (some c)).1 in
      (once.bytes_sent ≡ c.bytes_sent + self.bytes_sent)
      × ((nowrap self (some once)).0.bytes_sent ≡ c.bytes_sent + 2 * self.bytes_sent)
unfolding nowrap
nowrap_repeated self c h = (ground arith, ground arith)
