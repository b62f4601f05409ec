-- ===== src/Linux/NetAddrs/Read.antt =====
-- `net_if_addrs` reads what the kernel sends, although `read_nlmsgs` leaves the rest of the datagram in
-- each message.
use pypsutil.Prelude.{
  ℕ, ◌+◌, ◌*◌, ◌%◌, ◌^◌, ◌≤◌, ◌<◌, ◌≡◌, refl, sym, ap, ◌∙◌, false, Option, none, some, List, [],
  ◌∷◌, ◌++◌, length, append_assoc, arith, length-append, All, map, All-map,
}
use pypsutil.Prelude.Exn.{Result, ok, err, ◌>>=◌, bind_cong, bind_assoc}
use pypsutil.Linux.Netlink.{Bytes, NlMsg, RtAttr}
use pypsutil.Linux.Netlink.Layout.{attrs_bytes, AttrFits, padding}
use pypsutil.Linux.Netlink.Headers.{datagram, MsgFits, length-head_bytes}
use pypsutil.Linux.Netlink.Messages.{overrun, overruns, AllFit, datagram-long}
use pypsutil.Linux.Netlink.Overrun.{
  attrs_bytes-append, attrs_bytes-aligned, attrs_bytes-long, padding-aligned, behind,
}
use pypsutil.Linux.NetAddrs.{for_attrs}
use pypsutil.Linux.NetAddrs.Join.{for_msgs}

-- A message of the kernel: a header of the message's own type, and attributes.
pub record KernelMsg : Type 0 where
  pub mtype : ℕ
  pub flags : ℕ
  pub seq : ℕ
  pub pid : ℕ
  pub header : Bytes
  pub attrs : List RtAttr

abbrev pub message : KernelMsg → NlMsg
message k = record {
  mtype = k.mtype;
  flags = k.flags;
  seq = k.seq;
  pid = k.pid;
  payload = k.header ++ attrs_bytes false k.attrs [];
}

-- The numbers fit into their fields; the header fills whole words, and one of type `wanted` has `size`
-- bytes.
abbrev pub IsLaidOut : ℕ → ℕ → KernelMsg → Type 0
IsLaidOut wanted size k =
    (length k.header % 4 ≡ 0)
    × (k.mtype ≡ wanted → length k.header ≡ size)
    × All AttrFits k.attrs
    × MsgFits (message k)
    × (length (message k).payload + 16 < 2 ^ 16)

-- The message as it is read with others behind it.
abbrev pub with_rest : KernelMsg → Bytes → NlMsg
with_rest k rest = record (message k) { payload = k.header ++ attrs_bytes false k.attrs rest }

-- What a loop over messages makes of each message alone.
abbrev pub each_alone : {S : Type 0} → (S → KernelMsg → Result S) → S → List KernelMsg → Result S
each_alone own s [] = ok s
each_alone own s (k ∷ ks) = own s k >>= λ s'. each_alone own s' ks

abbrev and_then : {S : Type 0} → Result S → (S → Option (Result S)) → Option (Result S)
and_then (ok s) next = next s
and_then (err ex) next = some (err ex)

overrun-cons :
    (k : KernelMsg) (ms : List NlMsg)
    → length k.header % 4 ≡ 0
    → overrun false (message k ∷ ms) ≡ with_rest k (datagram false ms) ∷ overrun false ms
overrun-cons k ms h =
    let own = attrs_bytes false k.attrs [] in
    let whole : length (k.header ++ own) % 4 ≡ 0 =
      omega (arith, h, length-append k.header own, attrs_bytes-aligned false k.attrs) in
    let body : (k.header ++ own) ++ (padding (length (k.header ++ own)) ++ datagram false ms)
        ≡ k.header ++ attrs_bytes false k.attrs (datagram false ms) =
      ap (λ z. (k.header ++ own) ++ (z ++ datagram false ms))
        (padding-aligned (length (k.header ++ own)) whole)
      ∙ append_assoc k.header own (datagram false ms)
      ∙ ap (λ bs. k.header ++ bs) (attrs_bytes-append false k.attrs (datagram false ms)) in
    ap (λ bs. record (message k) { payload = bs } ∷ overrun false ms) body

-- A reader of attributes that passes over type 0 does not see the messages behind.
pub for_attrs-behind :
    {S : Type 0} (body : S → RtAttr → Result S) (s : S) (attrs : List RtAttr) (ms : List NlMsg)
    → ((s : S) (bs : Bytes) → body s (0, bs) ≡ ok s)
    → for_attrs body s (attrs ++ behind ms) none ≡ for_attrs body s attrs none
for_attrs-behind body s [] [] skip = refl
for_attrs-behind body s [] (m ∷ ms) skip = rw (skip s _) (for_attrs-behind body s [] ms skip)
for_attrs-behind body s (a ∷ attrs) ms skip =
    bind_cong (body s a) (λ s'. for_attrs body s' (attrs ++ behind ms) none)
      (λ s'. for_attrs body s' attrs none) (λ s'. for_attrs-behind body s' attrs ms skip)

abbrev pub IsSmall : NlMsg → Type 0
IsSmall m = length m.payload + 16 < 2 ^ 16

-- The bytes of a message leave room for as many attributes and messages behind.
room :
    (k : KernelMsg) (ms : List NlMsg)
    → 4 * length k.attrs + 16 * length ms + 16 ≤ length (datagram false (message k ∷ ms))
room k ms =
    let own = attrs_bytes false k.attrs [] in
    let whole = k.header ++ own in
    let tail = padding (length whole) ++ datagram false ms in
    omega (
      arith,
      length-head_bytes false (length whole + 16) (message k) (whole ++ tail),
      length-append whole tail,
      length-append k.header own,
      length-append (padding (length whole)) (datagram false ms),
      attrs_bytes-long false k.attrs,
      datagram-long false ms,
    )

shorter :
    (m : NlMsg) (ms : List NlMsg) → length (datagram false ms) ≤ length (datagram false (m ∷ ms))
shorter m ms =
    let tail = padding (length m.payload) ++ datagram false ms in
    omega (
      arith,
      length-head_bytes false (length m.payload + 16) m (m.payload ++ tail),
      length-append m.payload tail,
      length-append (padding (length m.payload)) (datagram false ms),
    )

abbrev pub together : List (List KernelMsg) → List KernelMsg
together [] = []
together (ks ∷ kss) = ks ++ together kss

-- Datagrams that one `recvmsg(8192)` takes whole, of messages laid out for a request.
abbrev pub AllLaidOut : ℕ → ℕ → List (List KernelMsg) → Type 0
AllLaidOut wanted size [] = Unit
AllLaidOut wanted size (ks ∷ kss) =
    (All (IsLaidOut wanted size) ks × (length (datagram false (map message ks)) ≤ 8192))
    × AllLaidOut wanted size kss

abbrev pub datagrams : List (List KernelMsg) → List Bytes
datagrams kss = map (datagram false) (map (map message) kss)

All-IsSmall :
    (wanted size : ℕ) (ks : List KernelMsg)
    → All (IsLaidOut wanted size) ks
    → All IsSmall (map message ks)
All-IsSmall wanted size [] h = tt
All-IsSmall wanted size (k ∷ ks) (hk, h) = (hk.4, All-IsSmall wanted size ks h)

pub all_fit :
    (wanted size : ℕ) (kss : List (List KernelMsg))
    → AllLaidOut wanted size kss
    → AllFit false (map (map message) kss)
all_fit wanted size [] h = tt
all_fit wanted size (ks ∷ kss) ((hk, small), h) = (
  (All-map (IsLaidOut wanted size) MsgFits message (λ k x. x.3) ks hk, small),
  all_fit wanted size kss h,
)

each_alone-append :
    {S : Type 0} (own : S → KernelMsg → Result S) (s : S) (ks ls : List KernelMsg)
    → each_alone own s (ks ++ ls) ≡ (each_alone own s ks >>= λ s'. each_alone own s' ls)
each_alone-append own s [] ls = refl
each_alone-append own s (k ∷ ks) ls =
    bind_cong (own s k) (λ s'. each_alone own s' (ks ++ ls))
      (λ s'. each_alone own s' ks >>= λ u. each_alone own u ls)
      (λ s'. each_alone-append own s' ks ls)
    ∙ sym (bind_assoc (own s k) (λ s'. each_alone own s' ks) (λ u. each_alone own u ls))

and_then_step :
    {S : Type 0} (r : Result S) (f : S → Option (Result S)) (g : S → Result S)
    (h : S → Option (Result S))
    → ((s : S) → f s ≡ and_then (g s) h)
    → and_then r f ≡ and_then (r >>= g) h
and_then_step (ok s) f g h e = e s
and_then_step (err ex) f g h e = refl

and_then_all :
    {S : Type 0} (r : Result S) (f : S → Option (Result S)) (g : S → Result S)
    → ((s : S) → f s ≡ some (g s))
    → and_then r f ≡ some (r >>= g)
and_then_all (ok s) f g e = e s
and_then_all (err ex) f g e = refl

-- A loop over messages whose body makes of each message, with others behind it, what it makes of the
-- message alone.
module _ {S : Type 0} (body : S → NlMsg → Option (Result S)) (own : S → KernelMsg → Result S)
    (wanted size fuel : ℕ)
    (agrees : (s : S) (k : KernelMsg) (ms : List NlMsg)
      → IsLaidOut wanted size k
      → All IsSmall ms
      → length k.attrs + length ms < fuel
      → body s (with_rest k (datagram false ms)) ≡ some (own s k))
    (enough : 2049 ≤ fuel) where
  for_msgs_step :
      (s : S) (m : NlMsg) (ms : List NlMsg) (r : Result S)
      → body s m ≡ some r
      → for_msgs body s (m ∷ ms) ≡ and_then r (λ s'. for_msgs body s' ms)
  for_msgs_step s m ms (ok s') e = rw (e, for_msgs) refl
  for_msgs_step s m ms (err ex) e = rw (e, for_msgs) refl

  for_msgs_one :
      (s : S) (ks : List KernelMsg) (tail : List NlMsg)
      → All (IsLaidOut wanted size) ks
      → length (datagram false (map message ks)) ≤ 8192
      → for_msgs body s (overrun false (map message ks) ++ tail)
        ≡ and_then (each_alone own s ks) (λ s'. for_msgs body s' tail)
  for_msgs_one s [] tail h small = refl
  for_msgs_one s (k ∷ ks) tail (hk, h) small =
      let ms = map message ks in
      let rest = overrun false ms ++ tail in
      let this = with_rest k (datagram false ms) in
      let fits : length k.attrs + length ms < fuel = omega (arith, small, room k ms, enough) in
      let less : length (datagram false ms) ≤ 8192 = omega (arith, small, shorter (message k) ms) in
      ap (λ xs. for_msgs body s (xs ++ tail)) (overrun-cons k ms hk.0)
      ∙ for_msgs_step s this rest (own s k) (agrees s k ms hk (All-IsSmall wanted size ks h) fits)
      ∙ and_then_step (own s k) (λ s'. for_msgs body s' rest) (λ s'. each_alone own s' ks)
          (λ s'. for_msgs body s' tail) (λ s'. for_msgs_one s' ks tail h less)

  pub for_msgs_alone :
      (s : S) (kss : List (List KernelMsg))
      → AllLaidOut wanted size kss
      → for_msgs body s (overruns false (map (map message) kss))
        ≡ some (each_alone own s (together kss))
  for_msgs_alone s [] h = refl
  for_msgs_alone s (ks ∷ kss) ((hk, small), h) =
      let tail = overruns false (map (map message) kss) in
      for_msgs_one s ks tail hk small
      ∙ and_then_all (each_alone own s ks) (λ s'. for_msgs body s' tail)
          (λ s'. each_alone own s' (together kss)) (λ s'. for_msgs_alone s' kss h)
      ∙ ap (λ (r : Result S). some r) (sym (each_alone-append own s ks (together kss)))
