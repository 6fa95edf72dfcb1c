-- ===== src/Transfer/Fuel.antt =====
-- That the rounds which a transfer is given are enough.
use heimdallr.Common.{
  ℕ, zero, suc, ◌+◌, ◌<◌, ◌≡◌, ap, List, some, arith, length, length-drop, drop, take, leb, leb→le,
  get_or, Option-cases, Bool-cases, inl, inr,
}
use heimdallr.Common.Addr.{u16_from_be}
use heimdallr.Tcp.{read_exact}
use heimdallr.Transfer.{Network, Collected, collect_all, read_responses}

length-read_exact :
    (n : ℕ) (s : List ℕ) (r : List ℕ × List ℕ) → read_exact n s ≡ some r → length r.1 + n ≡ length s
unfolding read_exact
length-read_exact n s r e = elim (Bool-cases (leb n (length s))) [
  | inl long ↦
      let same : (take n s, drop n s) ≡ r = ground (arith, e, long) in
      let rest = ap (λ x. length x.1) same in
      omega (arith, rest, length-drop n s, leb→le n (length s) long)
  | inr short ↦ ground (arith, e, short)
]

module _ {Name Authority : Type 0} (net : Network Name Authority) where
  -- A round more changes nothing where there are more rounds than bytes.
  pub read_responses-enough :
      (fuel : ℕ) (stream : List ℕ) (c : Collected Name)
      → length stream < fuel
      → read_responses net fuel stream c ≡ read_responses net (suc fuel) stream c
  unfolding read_responses
  read_responses-enough zero stream c h = absurd (omega (arith, h))
  read_responses-enough (suc fuel) stream c h = elim (Option-cases (read_exact 2 stream)) [
    | inl ended ↦ ground (arith, ended)
    | inr (r, head) ↦
        let msg_len = u16_from_be (get_or r.0 0 0) (get_or r.0 1 0) in
        elim (Option-cases (read_exact msg_len r.1)) [
          | inl cut ↦ ground (arith, head, cut)
          | inr (q, body) ↦ elim (Option-cases (net.decode q.0)) [
            | inl bad ↦ ground (arith, head, body, bad)
            | inr (m, decoded) ↦
                let shorter : length q.1 < fuel = omega (
                  arith,
                  length-read_exact 2 stream r head,
                  length-read_exact msg_len r.1 q body,
                  h,
                ) in
                let more = read_responses-enough fuel q.1 (collect_all c m.answers) shorter in
                ground (arith, head, body, decoded, more)
          ]
        ]
  ]
