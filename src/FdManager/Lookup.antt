-- ===== src/FdManager/Lookup.antt =====
-- What `get` finds after `get` and `del`.
use cor_reactor.Base.{
  ℕ, zero, suc, ◌-◌, ◌*◌, ◌/◌, ◌≤◌, ◌<◌, ◌≡◌, refl, ap, ◌∙◌, inl, inr, List, [], ◌∷◌, Option, none,
  some, true, false, Bool-cases, leb, lt→ltb, leb→le, leb→lt, length, length-append, length-take,
  length-replicate, length-set, get_elem?, get_elem?-set, set, take, replicate, ok, arith,
  Option-cases,
}
use cor_reactor.Base.Int.{pos}
use cor_reactor.FdManager.{FdCtx, FdManager, Fstat, new_fd_ctx, resize, create, get, del}

-- The vector never shrinks below its first size.
abbrev pub IsValid : FdManager → Type 0
IsValid m = 64 ≤ length m.datas

length-resize : (ds : List (Option FdCtx)) (size : ℕ) → length (resize ds size) ≡ size
unfolding resize
length-resize ds size = omega (
  arith,
  length-append (take size ds) (replicate (size - length ds) none),
  length-take size ds,
  length-replicate {A = Option FdCtx} (size - length ds) none,
)

-- What creating leaves: a valid manager in which the descriptor has a context.
create_lem :
    (m : FdManager) (fd : ℕ) (fstat : Fstat)
    → IsValid m
    → (n : FdManager) × (create m fd fstat ≡ ok (n, some (new_fd_ctx fd fstat)))
      × IsValid n
      × (get_elem? n.datas fd ≡ some (some (new_fd_ctx fd fstat)))
unfolding create
create_lem m fd fstat v = elim (Bool-cases (leb (length m.datas) fd)) [
  | inl h ↦
      let ds = resize m.datas (fd * 3 / 2) in
      let long = length-resize m.datas (fd * 3 / 2) in
      let inside : fd < length ds = omega (arith, leb→le _ _ h, v, long) in
      (
        record { datas = set ds fd (some (new_fd_ctx fd fstat)) },
        rw h (rw (lt→ltb fd (length ds) inside)),
        omega (arith, length-set ds fd (some (new_fd_ctx fd fstat)), inside, v, leb→le _ _ h),
        get_elem?-set ds fd _ inside,
      )
  | inr h ↦
      let inside : fd < length m.datas = leb→lt _ _ h in
      (
        record { datas = set m.datas fd (some (new_fd_ctx fd fstat)) },
        rw h (rw (lt→ltb fd (length m.datas) inside)),
        omega (arith, length-set m.datas fd (some (new_fd_ctx fd fstat)), v),
        get_elem?-set m.datas fd _ inside,
      )
]

-- On a manager of at least 64 places, `get` with auto_create ends without an access out of range and
-- returns a context; the manager keeps its size at least, and a later `get` without auto_create
-- returns the same context and changes nothing.
pub get-get :
    (m : FdManager) (fd : ℕ) (fstat later : Fstat)
    → IsValid m
    → (n : FdManager) × (c : FdCtx) × (get m (pos fd) true fstat ≡ ok (n, some c))
      × IsValid n
      × (get n (pos fd) false later ≡ ok (n, some c))
unfolding get
get-get m fd fstat later v =
    let (n, made, w, at) = create_lem m fd fstat v in
    elim (Option-cases (get_elem? m.datas fd)) [
      | inl h ↦ (n, new_fd_ctx fd fstat, rw (h, get) made, w, rw (at, get))
      | inr (o, h) ↦ elim (Option-cases o) [
        | inr (c, k) ↦
            let here : get_elem? m.datas fd ≡ some (some c) = h ∙ ap some k in
            (m, c, rw (here, get), v, rw (here, get))
        | inl k ↦
            let here : get_elem? m.datas fd ≡ some none = h ∙ ap some k in
            (n, new_fd_ctx fd fstat, rw (here, get) made, w, rw (at, get))
      ]
    ]

-- After `del` of a descriptor that is not negative, `get` without auto_create finds nothing, and a
-- manager of at least 64 places keeps them.
pub get-del :
    (m : FdManager) (fd : ℕ) (fstat : Fstat)
    → IsValid m
    → (get (del m fd) (pos fd) false fstat ≡ ok (del m fd, none)) × IsValid (del m fd)
unfolding get del
get-del m fd fstat v = elim (Bool-cases (leb (length m.datas) fd)) [
  | inl h ↦ rw h (rw (absent m.datas fd (leb→le _ _ h), get), v)
  | inr h ↦ rw h (
    rw (get_elem?-set m.datas fd none (leb→lt _ _ h), get),
    omega (arith, length-set m.datas fd none, v),
  )
]
  where
    absent : (ds : List (Option FdCtx)) (i : ℕ) → length ds ≤ i → get_elem? ds i ≡ none
    absent [] i h = refl
    absent (d ∷ ds) zero h = absurd (omega arith)
    absent (d ∷ ds) (suc i) h = absent ds i (omega arith)
