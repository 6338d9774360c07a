-- ===== src/ByteArray/Stream.antt =====
-- The unread bytes of an array: writes in a row, going back, and reading on.
use native.Mathlib.Decide.{dec_lt, dec_le}
use Prim.Native.Nat.add
use mathlib.Core.Path.{ap₂}
use mathlib.Core.List.{append_assoc}
use cor_reactor.Base.{
  ℕ, zero, suc, ◌+◌, ◌-◌, ◌%◌, ◌≤◌, ◌<◌, ◌≡◌, refl, sym, ap, ◌∙◌, subst, List, [], ◌∷◌, ◌++◌,
  length, length-append, length-drop, take, drop, drop-add, take-append_left, drop-append_right,
  take-length, arith, ok,
}
use cor_reactor.ByteArray.{ByteArray, write, read, set_position}
use cor_reactor.ByteArray.Chain.{flat}
use cor_reactor.ByteArray.Invariant.{IsValid, IsShort, contents, length-contents}
use cor_reactor.ByteArray.Capacity.{room}
use cor_reactor.ByteArray.Overwrite.{overwrite}
use cor_reactor.ByteArray.Write.{Written, write_lem, write-null_deref}
use cor_reactor.ByteArray.Read.{ReadOff, read_lem}
use cor_reactor.ByteArray.Position.{Moved, set_position_lem}

-- The bytes from the position to the end of the data.
abbrev pub unread : ByteArray → List ℕ
unread b = drop b.position (contents b)

IsShort-dec : (base free n : ℕ) → Dec (IsShort base free n)
IsShort-dec base free n = elim (dec_lt free n) [
  | no a ↦ no (λ s. a s.0)
  | yes a ↦ elim (dec_lt 0 ((n - free) % base)) [
    | no c ↦ no (λ s. c s.1)
    | yes c ↦ elim (dec_le ((n - free) % base) free) [
      | no d ↦ no (λ s. d s.2)
      | yes d ↦ yes (a, c, d)
    ]
  ]
]

-- A `write` that returns has written.
pub write-Written :
    (b : ByteArray) (buf : List ℕ) (c : ByteArray)
    → IsValid b
    → write b buf ≡ ok c
    → Written b buf c
write-Written b buf c v e = elim (IsShort-dec b.base_size (room b) (length buf)) [
  | yes s ↦ absurd (cc (write-null_deref b buf v s))
  | no ns ↦ let (d, e', w) = write_lem b buf v ns in subst (Written b buf) (cc) w
]

overwrite-overwrite :
    (l : List ℕ) (p : ℕ) (s t : List ℕ)
    → p ≤ length l
    → overwrite (overwrite l p s) (p + length s) t ≡ overwrite l p (s ++ t)
unfolding overwrite
overwrite-overwrite l zero s t h =
    ap₂ (λ a r. a ++ (t ++ r))
      (ap (λ k. take k (s ++ drop (0 + length s) l)) (omega arith)
        ∙ take-append_left (length s) s _ (omega arith)
        ∙ take-length s)
      (ap (λ k. drop k (s ++ drop (0 + length s) l)) (omega arith)
        ∙ drop-append_right (length t) s _
        ∙ drop-add (0 + length s) (length t) l
        ∙ ap (λ k. drop k l) (omega (arith, length-append s t)))
    ∙ sym (append_assoc s t _)
overwrite-overwrite [] (suc p) s t h = absurd (omega arith)
overwrite-overwrite (x ∷ l) (suc p) s t h =
    simp add.suc (ap (◌∷◌ x) (overwrite-overwrite l p s t (omega arith)))

drop-overwrite :
    (l : List ℕ) (p : ℕ) (s : List ℕ)
    → p ≤ length l
    → drop p (overwrite l p s) ≡ s ++ drop (p + length s) l
unfolding overwrite
drop-overwrite l zero s h = refl
drop-overwrite [] (suc p) s h = absurd (omega arith)
drop-overwrite (x ∷ l) (suc p) s h = rw add.suc (drop-overwrite l p s (omega arith))

-- Two writes in a row are one.
pub Written-trans :
    {b c d : ByteArray} (s t : List ℕ)
    → IsValid b
    → Written b s c
    → Written c t d
    → Written b (s ++ t) d
Written-trans {b} {c} {d} s t v w w' = record {
  valid = w'.valid;
  moved = omega (arith, w.moved, w'.moved, length-append s t);
  size = omega (arith, w.moved, w'.moved, w.size, w'.size, length-append s t);
  refines =
      w'.refines
      ∙ ap₂ (λ l p. overwrite l p t) w.refines w.moved
      ∙ overwrite-overwrite (contents b) b.position s t
          (omega (arith, length-contents b v, v.read_le));
  endian = w'.endian ∙ w.endian;
}

-- After setPosition has gone back to where a write began, the bytes written come first.
pub rewound :
    (b c : ByteArray) (s : List ℕ)
    → IsValid b
    → Written b s c
    → (d : ByteArray) × (set_position c b.position ≡ ok d)
      × Moved c b.position d
      × (unread d ≡ s ++ drop (b.position + length s) (contents b))
rewound b c s v w =
    let (d, e, m) =
      (set_position_lem c b.position w.valid).0
        (omega (arith, w.moved, w.valid.read_le, w.valid.size_le)) in
    (
      d,
      e,
      m,
      ap₂ (λ p l. drop p l) m.position
            (ap₂ (λ k ns. take k (flat ns))
                (let d_size : d.size ≡ c.size = omega (arith, m.size, w.size, v.read_le) in d_size)
                (ap (λ (x : ByteArray). x.nodes) m.frame)
              ∙ w.refines)
          ∙ drop-overwrite (contents b) b.position s
              (omega (arith, length-contents b v, v.read_le)),
    )

-- Reading takes the first of the unread bytes.
pub read-unread :
    (b : ByteArray) (s rest : List ℕ)
    → IsValid b
    → b.position < b.capacity
    → unread b ≡ s ++ rest
    → (c : ByteArray) × (read b (length s) ≡ ok (s, c)) × ReadOff b (length s) c × (unread c ≡ rest)
read-unread b s rest v h e =
    let len : length (unread b) ≡ length s + length rest = ap length e ∙ length-append s rest in
    let all : length (unread b) ≡ b.size - b.position =
      omega (arith, length-drop b.position (contents b), length-contents b v) in
    let (c, eq, r) = read_lem b (length s) v h (omega (arith, len, all, v.read_le)) in
    (
      c,
      eq
          ∙ ap (λ l. ok (l, c))
              (ap (take (length s)) e
                ∙ take-append_left (length s) s rest (omega arith)
                ∙ take-length s),
      r,
      ap₂ (λ p l. drop p l) r.moved (ap (λ (x : ByteArray). contents x) r.frame)
          ∙ sym (drop-add b.position (length s) (contents b))
          ∙ ap (drop (length s)) e
          ∙ ap (λ k. drop k (s ++ rest)) (omega arith)
          ∙ drop-append_right 0 s rest,
    )

-- Some bytes are unread only before the end of the last node.
pub unread-room :
    (b : ByteArray) (x : ℕ) (rest : List ℕ)
    → IsValid b
    → unread b ≡ x ∷ rest
    → b.position < b.capacity
unread-room b x rest v e =
    omega (arith, ap length e, length-drop b.position (contents b), length-contents b v, v.size_le)

-- Where something was written, the position to go back to lies before the end of the last node.
pub after_rewind :
    (b c d : ByteArray) (s : List ℕ)
    → Written b s c
    → Moved c b.position d
    → 0 < length s
    → d.position < d.capacity
after_rewind b c d s w m h =
    omega (arith, m.position, m.size, m.valid.size_le, w.moved, w.valid.read_le)
