-- ===== src/Tcp/Framing.antt =====
-- The two-byte length that frames each message on a TCP stream.
use heimdallr.Common.{
  ℕ, zero, suc, ◌+◌, ◌*◌, ◌%◌, ◌/◌, ◌<◌, ◌≤◌, false, ◌||◌, ◌≡◌, refl, sym, ap, ◌∙◌, List, [], ◌∷◌,
  ◌++◌, Option, none, some, ltb, ◌==◌, length, take, drop, All, arith, length-append, append_assoc,
  length-take, ◌⊎◌, Bool-cases, Option-cases, inl, inr,
}
use heimdallr.Common.Addr.{u16_from_be, IpAddr}
use heimdallr.Common.Text.{Text}
use heimdallr.Proxy.{SocketAddr}
use heimdallr.Tcp.{
  read_exact, frame, frames, messages, max_dns_message, handle_connection, answer_all,
  handle_dns_query,
}

-- a message that a frame can carry
abbrev pub IsMessage : List ℕ → Type 0
IsMessage m = (0 < length m) × (length m ≤ max_dns_message)

split_at :
    (n : ℕ) (xs ys : List ℕ) → n ≡ length xs → (take n (xs ++ ys) ≡ xs) × (drop n (xs ++ ys) ≡ ys)
split_at zero [] ys h = (refl, refl)
split_at (suc n) [] ys h = absurd (omega (arith, h))
split_at zero (x ∷ xs) ys h = absurd (omega (arith, h))
split_at (suc n) (x ∷ xs) ys h = ground (arith, split_at n xs ys (omega (arith, h)))

pub read_exact-append :
    (n : ℕ) (xs ys : List ℕ) → n ≡ length xs → read_exact n (xs ++ ys) ≡ some (xs, ys)
unfolding read_exact
read_exact-append n xs ys h = ground (arith, split_at n xs ys h, length-append xs ys)

messages-frame :
    (fuel : ℕ) (m rest : List ℕ)
    → IsMessage m
    → messages (suc fuel) (frame m ++ rest) ≡ m ∷ messages fuel rest
unfolding messages frame
messages-frame fuel m rest (pos, small) =
    let n = length m / 256 % 256 * 256 + length m % 256 in
    let same : n ≡ length m = omega arith in ground (arith, read_exact-append n m rest same)

messages_on :
    (ms : List (List ℕ)) (fuel : ℕ)
    → All IsMessage ms
    → length ms ≤ fuel
    → messages fuel (frames ms) ≡ ms
unfolding frames messages read_exact
messages_on [] zero v h = refl
messages_on [] (suc fuel) v h = refl
messages_on (m ∷ ms) zero v h = absurd (omega (arith, h))
messages_on (m ∷ ms) (suc fuel) (vm, v) h =
    messages-frame fuel m (frames ms) vm
    ∙ ap (λ t. m ∷ t) (messages_on ms fuel v (omega (arith, h)))

frames-append : (ms ns : List (List ℕ)) → frames (ms ++ ns) ≡ frames ms ++ frames ns
unfolding frames
frames-append [] ns = refl
frames-append (m ∷ ms) ns =
    ap (λ t. frame m ++ t) (frames-append ms ns)
    ∙ sym (append_assoc (frame m) (frames ms) (frames ns))

length-frames : (ms : List (List ℕ)) → length ms ≤ length (frames ms)
unfolding frames frame
length-frames [] = omega arith
length-frames (m ∷ ms) = omega (arith, length-frames ms, length-append (frame m) (frames ms))

-- Messages of 1 to 65535 bytes, each written behind its two-byte length, are read back as they
-- were and in their order, with the fuel that the connection gives: the bytes of the stream.
pub messages-frames :
    (ms : List (List ℕ)) → All IsMessage ms → messages (length (frames ms)) (frames ms) ≡ ms
messages-frames ms v = messages_on ms (length (frames ms)) v (length-frames ms)

module _ (ip_to_string : IpAddr → Text)
    (handle_request : SocketAddr → List ℕ → Option (List (List ℕ))) where
  -- what the handler responds to the messages, all in one list
  abbrev pub responses : SocketAddr → List (List ℕ) → List (List ℕ)
  responses peer [] = []
  responses peer (m ∷ ms) = elim (handle_request peer m) [
    | none ↦ responses peer ms
    | some rs ↦ rs ++ responses peer ms
  ]

  answer_all-frames :
      (peer : SocketAddr) (ms : List (List ℕ))
      → answer_all handle_request peer ms ≡ frames (responses peer ms)
  unfolding answer_all handle_dns_query frames
  answer_all-frames peer [] = refl
  answer_all-frames peer (m ∷ ms) = elim (Option-cases (handle_request peer m)) [
    | inl bad ↦ ground (arith, bad, answer_all-frames peer ms)
    | inr (rs, parsed) ↦
        ground (arith, parsed, answer_all-frames peer ms, frames-append rs (responses peer ms))
  ]

  -- Without the PROXY protocol a connection that carries framed messages of 1 to 65535 bytes
  -- writes exactly what the handler responds to each of them with the peer as its source: all
  -- responses to the first, in their order, then those to the second, and so on, each behind its
  -- own two-byte length.
  pub handle_connection-frames :
      (allow : List Text) (peer : SocketAddr) (arrived : ℕ) (ms : List (List ℕ))
      → All IsMessage ms
      → handle_connection ip_to_string handle_request false allow peer arrived (frames ms)
        ≡ some (frames (responses peer ms))
  unfolding handle_connection
  handle_connection-frames allow peer arrived ms v =
      rw (messages-frames ms v) (ap some (answer_all-frames peer ms))

abbrev IsByte : ℕ → Type 0
IsByte x = x < 256

take++drop : (n : ℕ) (s : List ℕ) → take n s ++ drop n s ≡ s
take++drop zero s = refl
take++drop (suc n) [] = refl
take++drop (suc n) (x ∷ s) = ap (λ t. x ∷ t) (take++drop n s)

read_exact-joins :
    (n : ℕ) (s xs ys : List ℕ) → read_exact n s ≡ some (xs, ys) → (xs ++ ys ≡ s) × (length xs ≡ n)
unfolding read_exact
read_exact-joins n s xs ys h = ground (arith, take++drop n s, length-take n s)

-- the first two bytes of a stream, and what a frame reads from them
read_exact-two : (x y : ℕ) (s : List ℕ) → read_exact 2 (x ∷ y ∷ s) ≡ some (x ∷ y ∷ [], s)
unfolding read_exact
read_exact-two x y s = ground arith

frame-eq :
    (x y : ℕ) (m : List ℕ) → IsByte x → IsByte y → length m ≡ u16_from_be x y → frame m ≡ x ∷ y ∷ m
unfolding frame
frame-eq x y m bx by h =
    let hi : length m / 256 % 256 ≡ x = omega (arith, h, bx, by) in
    let lo : length m % 256 ≡ y = omega (arith, h, bx, by) in cc (hi, lo)

All-right : (m t : List ℕ) → All IsByte (m ++ t) → All IsByte t
All-right [] t b = b
All-right (x ∷ m) t b = All-right m t b.1

read_exact-bytes :
    (n : ℕ) (s m t : List ℕ) → read_exact n s ≡ some (m, t) → All IsByte s → All IsByte t
read_exact-bytes n s m t e b = All-right m t (rw ((read_exact-joins n s m t e).0) b)

-- one round of the loop: it ends, or it reads a message and goes on behind it
messages-step :
    (fuel x y : ℕ) (s : List ℕ)
    → (messages (suc fuel) (x ∷ y ∷ s) ≡ [])
      ⊎ ((m : List ℕ) × (t : List ℕ) × (read_exact (u16_from_be x y) s ≡ some (m, t))
          × (0 < u16_from_be x y)
          × (u16_from_be x y ≤ max_dns_message)
          × (messages (suc fuel) (x ∷ y ∷ s) ≡ m ∷ messages fuel t))
unfolding messages
messages-step fuel x y s =
    elim (Bool-cases ((u16_from_be x y == 0) || ltb max_dns_message (u16_from_be x y))) [
      | inl stop ↦ inl (rw (read_exact-two x y s, messages) (ground (arith, stop)))
      | inr go ↦ elim (Option-cases (read_exact (u16_from_be x y) s)) [
        | inl short ↦ inl (rw (read_exact-two x y s, messages) (ground (arith, go, short)))
        | inr ((m, t), e) ↦ inr (
          m,
          t,
          e,
          ground (arith, go),
          ground (arith, go),
          rw (read_exact-two x y s, messages) (ground (arith, go, e)),
        )
      ]
    ]

frames-cons :
    (x y : ℕ) (m s t : List ℕ) (ms : List (List ℕ)) (rest : List ℕ)
    → frame m ≡ x ∷ y ∷ m
    → m ++ t ≡ s
    → frames ms ++ rest ≡ t
    → frames (m ∷ ms) ++ rest ≡ x ∷ y ∷ s
unfolding frames
frames-cons x y m s t ms rest hf hs ht = append_assoc (frame m) (frames ms) rest ∙ cc (hf, hs, ht)

-- Whatever bytes a stream holds, it begins with the frames of the messages that are read from
-- it, and each of these has 1 to 65535 bytes.
pub messages-prefix :
    (fuel : ℕ) (s : List ℕ)
    → All IsByte s
    → (rest : List ℕ) × (frames (messages fuel s) ++ rest ≡ s) × All IsMessage (messages fuel s)
unfolding messages frames read_exact
messages-prefix zero s b = (s, refl, tt)
messages-prefix (suc fuel) [] b = ([], refl, tt)
messages-prefix (suc fuel) (x ∷ []) b = (x ∷ [], refl, tt)
messages-prefix (suc fuel) (x ∷ y ∷ s) b = elim (messages-step fuel x y s) [
  | inl ends ↦ rw ends (x ∷ y ∷ s, refl, tt)
  | inr (m, t, e, pos, small, next) ↦
      let (joined, len) = read_exact-joins (u16_from_be x y) s m t e in
      let (rest, same, valid) = messages-prefix fuel t (read_exact-bytes _ s m t e b.1.1) in
      rw next (
        rest,
        frames-cons x y m s t _ rest (frame-eq x y m b.0 b.1.0 len) joined same,
        ((omega arith, omega arith), valid),
      )
]

-- Fuel of the stream's length is enough: any more reads the same messages.
pub messages-enough :
    (f g : ℕ) (s : List ℕ) → length s ≤ f → length s ≤ g → messages f s ≡ messages g s
unfolding messages read_exact
messages-enough zero zero s hf hg = refl
messages-enough (suc f) zero [] hf hg = refl
messages-enough zero (suc g) [] hf hg = refl
messages-enough (suc f) (suc g) [] hf hg = refl
messages-enough (suc f) (suc g) (x ∷ []) hf hg = refl
messages-enough zero g (x ∷ s) hf hg = absurd (omega (arith, hf))
messages-enough f zero (x ∷ s) hf hg = absurd (omega (arith, hg))
messages-enough (suc f) (suc g) (x ∷ y ∷ s) hf hg =
    rw (read_exact-two x y s, messages)
      (elim (Option-cases (read_exact (u16_from_be x y) s)) [
        | inl short ↦ rw (short, messages) refl
        | inr ((m, t), e) ↦
            let (joined, len) = read_exact-joins (u16_from_be x y) s m t e in
            let short : length m + length t ≡ length s =
              sym (length-append m t) ∙ ap length joined in
            rw (e, messages)
              (ground (
                arith,
                messages-enough f g t (omega (arith, short, hf)) (omega (arith, short, hg)),
              ))
      ])
