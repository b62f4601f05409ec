-- ===== src/Linux/NetAddrs/Retry.antt =====
-- The loop of `net_if_addrs` of pypsutil/_pslinux.py that starts over.
use pypsutil.Prelude.{
  ℕ, zero, suc, ◌<◌, ◌≡◌, ◌≢◌, refl, ap, ◌∙◌, inl, inr, Bool, some, List, ◌==◌, arith, Bool-cases,
  ==_iff,
}
use pypsutil.Prelude.Dict.{Dict}
use pypsutil.Prelude.Exn.{Exn, Result, ok, err}
use pypsutil.Prelude.Text.{Text}
use pypsutil.Linux.Netlink.{Queue}
use pypsutil.Linux.NetAddrs.{NicAddr, Library}
use pypsutil.Linux.NetAddrs.Join.{attempt, net_if_addrs}

-- ENOBUFS
abbrev pub no_buffers : Exn
no_buffers = Exn.os_error 105

module _ (lib : Library) (fuel : ℕ) (big : Bool) where
  abbrev Turn : Type 0
  Turn = Result (Dict Text (List NicAddr))

  goes_round :
      (turns : ℕ) (kernel : ℕ → Queue × Queue)
      → attempt lib fuel big (kernel 0) ≡ some (err no_buffers)
      → net_if_addrs lib fuel big (suc turns) kernel
        ≡ net_if_addrs lib fuel big turns (λ i. kernel (suc i))
  unfolding net_if_addrs
  goes_round turns kernel e = rw (net_if_addrs, e) refl

  stops :
      (turns : ℕ) (kernel : ℕ → Queue × Queue) (r : Turn)
      → attempt lib fuel big (kernel 0) ≡ some r
      → r ≢ err no_buffers
      → net_if_addrs lib fuel big (suc turns) kernel ≡ some r
  unfolding net_if_addrs
  stops turns kernel (ok d) e other = rw (net_if_addrs, e) refl
  stops turns kernel (err (Exn.os_error errno)) e other = elim (Bool-cases (errno == 105)) [
    | inl same ↦ absurd (other (ap (λ n. err (Exn.os_error n)) ((==_iff errno 105).0 same)))
    | inr differs ↦ rw (net_if_addrs, e, differs) refl
  ]
  stops turns kernel (err ex) e other = rw (net_if_addrs, e) refl

  -- However often the kernel runs out of buffers at first, `net_if_addrs` comes back as soon as a turn
  -- ends otherwise, with the result of this turn, an exception or not.
  pub net_if_addrs_returns :
      (n turns : ℕ) (kernel : ℕ → Queue × Queue) (r : Turn)
      → ((i : ℕ) → i < n → attempt lib fuel big (kernel i) ≡ some (err no_buffers))
      → attempt lib fuel big (kernel n) ≡ some r
      → r ≢ err no_buffers
      → n < turns
      → net_if_addrs lib fuel big turns kernel ≡ some r
  net_if_addrs_returns n zero kernel r before now other more = absurd (omega (arith, more))
  net_if_addrs_returns zero (suc turns) kernel r before now other more =
      stops turns kernel r now other
  net_if_addrs_returns (suc n) (suc turns) kernel r before now other more =
      goes_round turns kernel (before 0 (omega arith))
      ∙ net_if_addrs_returns n turns (λ i. kernel (suc i)) r
          (λ i h. before (suc i) (omega (arith, h))) now other (omega (arith, more))
