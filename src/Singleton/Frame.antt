-- ===== src/Singleton/Frame.antt =====
-- The frame lists each object once, and `Release` destroys exactly the listed ones.
use mathlib.Core.Bool.{false≢true}
use dmtimer.Base.{
  hit, ltb, ==_self, Returns-mono, Returns-bind, ◌+◌, ◌≤◌, ◌<◌, ℕ, ◌≡◌, refl, sym, ◌∙◌, inl, inr,
  Bool, true, false, ◌||◌, ◌&&◌, ◌≢◌, none, some, Option-cases, List, [], ◌∷◌, ◌++◌, ◌==◌, ==→eq,
  if◌then◌else◌, Bool-cases, arith, update, Returns, returns,
}
use dmtimer.Singleton.{
  Singletons, create, destroy, has, add_singleton, backwards, release_all, release, is_there,
}

-- whether a type is in the list
abbrev pub has_type : ℕ → List (ℕ × ℕ) → Bool
has_type t [] = false
has_type t (e ∷ es) = (e.0 == t) || has_type t es

-- whether an object of a type is in the list
abbrev pub has_entry : ℕ → ℕ → List (ℕ × ℕ) → Bool
has_entry t p [] = false
has_entry t p (e ∷ es) = ((e.0 == t) && (e.1 == p)) || has_entry t p es

-- The listed objects are the instances of their types, and no two types share an instance.
pub record IsFrame (s : Singletons) : Type 0 where
  pub listed : (t p : ℕ) → has_entry t p s.list ≡ true → s.instances t ≡ some p
  pub apart : (t t' p : ℕ) → s.instances t ≡ some p → s.instances t' ≡ some p → t ≡ t'

has_entry-append :
    (t p : ℕ) (es fs : List (ℕ × ℕ))
    → has_entry t p (es ++ fs) ≡ (has_entry t p es || has_entry t p fs)
has_entry-append t p [] fs = refl
has_entry-append t p (e ∷ es) fs = ground (arith, has_entry-append t p es fs)

-- the type of an object in the list
entry_of :
    (p : ℕ) (es : List (ℕ × ℕ))
    → has p es ≡ true
    → (t : ℕ) × (has_entry t p es ≡ true) × (has_type t es ≡ true)
entry_of p [] h = absurd (false≢true h)
entry_of p ((t, q) ∷ es) h = elim (Bool-cases (q == p)) [
  | inl e ↦ (t, ground (arith, e), ground arith)
  | inr n ↦
      let (t', i, j) = entry_of p es (ground (arith, n, h)) in
      (t', ground (arith, i), ground (arith, j))
]

entry-has_type : (t p : ℕ) (es : List (ℕ × ℕ)) → has_entry t p es ≡ true → has_type t es ≡ true
entry-has_type t p [] h = absurd (false≢true h)
entry-has_type t p (e ∷ es) h = ground (arith, entry-has_type t p es)

module _ (s : Singletons) (frame : IsFrame s) (t p : ℕ) (s1 : Singletons) (same : s1.list ≡ s.list)
    (new : has_type t s.list ≡ false) (held : s1.instances t ≡ some p)
    (others : (t' : ℕ) → (t' == t) ≡ false → s1.instances t' ≡ s.instances t')
    (only : (t' : ℕ) → s.instances t' ≡ some p → t' ≡ t) where
  not_there : has p s.list ≡ false
  not_there = elim (Bool-cases (has p s.list)) [
    | inr n ↦ n
    | inl e ↦
        let (t', i, j) = entry_of p s.list e in
        absurd (false≢true (sym new ∙ rw (only t' (frame.listed t' p i)) at j))
  ]

  kept : (t' q : ℕ) → has_entry t' q s.list ≡ true → s1.instances t' ≡ some q
  kept t' q h = elim (Bool-cases (t' == t)) [
    | inr n ↦ others t' n ∙ frame.listed t' q h
    | inl e ↦ absurd (false≢true (sym new ∙ rw (==→eq t' t e) at (entry-has_type t' q s.list h)))
  ]

  alone :
      (t' q : ℕ) → (t' == t) ≡ false → s1.instances t ≡ some q → s1.instances t' ≡ some q → t ≡ t'
  alone t' q n h k = sym (only t' (sym (others t' n) ∙ k ∙ sym h ∙ held))

  pushed-IsFrame : IsFrame (record s1 { list = s1.list ++ (t, p) ∷ [] })
  pushed-IsFrame = record {
    listed = λ t' q h. elim (Bool-cases (has_entry t' q s.list)) [
      | inl e ↦ kept t' q e
      | inr n ↦
          let both : ((t == t') && (p == q)) ≡ true =
            ground (arith, n, has_entry-append t' q s.list ((t, p) ∷ []), rw same at h) in
          rw (==→eq t t' (ground (arith, both)), ==→eq p q (ground (arith, both))) at held
    ];
    apart = λ t1 t2 q h k. elim (Bool-cases (t1 == t)) [
      | inl e1 ↦ elim (Bool-cases (t2 == t)) [
        | inl e2 ↦ ==→eq t1 t e1 ∙ sym (==→eq t2 t e2)
        | inr n2 ↦ ==→eq t1 t e1 ∙ alone t2 q n2 (rw (==→eq t1 t e1) at h) k
      ]
      | inr n1 ↦ elim (Bool-cases (t2 == t)) [
        | inl e2 ↦ sym (==→eq t2 t e2 ∙ alone t1 q n1 (rw (==→eq t2 t e2) at k) h)
        | inr n2 ↦ frame.apart t1 t2 q (sym (others t1 n1) ∙ h) (sym (others t2 n2) ∙ k)
      ]
    ];
  }

-- how often a type is in the list
abbrev pub count_type : ℕ → List (ℕ × ℕ) → ℕ
count_type t [] = 0
count_type t (e ∷ es) = hit t e.0 + count_type t es

count_type-append :
    (t : ℕ) (es fs : List (ℕ × ℕ)) → count_type t (es ++ fs) ≡ count_type t es + count_type t fs
count_type-append t [] fs = omega arith
count_type-append t (e ∷ es) fs = omega (arith, count_type-append t es fs)

count_type-backwards : (t : ℕ) (es : List (ℕ × ℕ)) → count_type t (backwards es) ≡ count_type t es
count_type-backwards t [] = refl
count_type-backwards t (e ∷ es) =
    omega (arith, count_type-append t (backwards es) (e ∷ []), count_type-backwards t es)

has_entry-backwards :
    (t p : ℕ) (es : List (ℕ × ℕ)) → has_entry t p (backwards es) ≡ has_entry t p es
has_entry-backwards t p [] = refl
has_entry-backwards t p (e ∷ es) =
    ground (arith, has_entry-append t p (backwards es) (e ∷ []), has_entry-backwards t p es)

entry-count_type : (t p : ℕ) (es : List (ℕ × ℕ)) → has_entry t p es ≡ true → 0 < count_type t es
entry-count_type t p [] h = absurd (false≢true h)
entry-count_type t p (e ∷ es) h = elim (Bool-cases (has_entry t p es)) [
  | inl later ↦ omega (arith, entry-count_type t p es later)
  | inr never ↦ ground (arith, h, never)
]

is_there-instance : (s : Singletons) (t p : ℕ) → s.instances t ≡ some p → is_there s (t, p) ≡ true
unfolding is_there
is_there-instance s t p e = rw (e, is_there) (==_self p)

-- After the loop the listed types have no instance, and nothing else has changed.
release_all-instances :
    (es : List (ℕ × ℕ)) (s : Singletons)
    → ((t p : ℕ) → has_entry t p es ≡ true → s.instances t ≡ some p)
    → ((t : ℕ) → count_type t es ≤ 1)
    → Returns
        (λ (s' : Singletons).
          (t : ℕ) → s'.instances t ≡ (if ltb 0 (count_type t es) then none else s.instances t))
        (release_all es s)
unfolding release_all is_there destroy
release_all-instances [] s there once = returns λ t. refl
release_all-instances ((t, p) ∷ es) s there once =
    let rest =
      release_all-instances es (destroy t s)
        (λ t' p' h.
          let other : (t' == t) ≡ false = ground (arith, once t', entry-count_type t' p' es h) in
          rw other (there t' p' (ground (arith, h))))
        (λ t'. omega (arith, once t')) in
    rw (is_there-instance s t p (there t p first))
      (Returns-mono rest λ s' h t'. h t' ∙ ground (arith, once t'))
  where
    first : has_entry t p ((t, p) ∷ es) ≡ true
    first = ground arith

-- If the listed objects are the instances of their types (`IsFrame`) and each type is listed at
-- most once, then `CDMSingletonFrame::Release` calls no object that is destroyed; it empties the
-- list and destroys the instances of exactly the types that were listed.
pub release-instances :
    (s : Singletons)
    → IsFrame s
    → ((t : ℕ) → count_type t s.list ≤ 1)
    → Returns
        (λ (s' : Singletons).
          (s'.list ≡ [])
          × ((t : ℕ)
              → s'.instances t ≡ (if ltb 0 (count_type t s.list) then none else s.instances t)))
        (release s)
unfolding release
release-instances s frame once =
    Returns-bind
      (release_all-instances (backwards s.list) s
        (λ t p h. frame.listed t p (sym (has_entry-backwards t p s.list) ∙ h))
        (λ t. rw (count_type-backwards t s.list) (once t)))
      λ s' h. returns (refl, λ t. h t ∙ (rw (count_type-backwards t s.list) refl))

-- `AddSingleton<T>` keeps the listed objects the instances of their types, and the instances of
-- different types different, if `T` is not in the list and the address of a new object is no
-- instance. It fails no assertion, and appends the instance of `T`, new or not, to the list.
pub add_singleton-IsFrame :
    (ndebug : Bool) (t fresh : ℕ) (s : Singletons)
    → IsFrame s
    → has_type t s.list ≡ false
    → ((t' : ℕ) → s.instances t' ≢ some fresh)
    → Returns
        (λ s'.
          IsFrame s' × ((p : ℕ) × (s'.list ≡ s.list ++ (t, p) ∷ []) × (s'.instances t ≡ some p)))
        (add_singleton ndebug t fresh s)
unfolding add_singleton create
add_singleton-IsFrame ndebug t fresh s frame new unused = elim (Option-cases (s.instances t)) [
  | inr (p, e) ↦
      let only : (t' : ℕ) → s.instances t' ≡ some p → t' ≡ t = λ t' h. frame.apart t' t p h e in
      let there = not_there s frame t p s refl new e (λ t' n. refl) only in
      rw (e, create, there)
        (returns (pushed-IsFrame s frame t p s refl new e (λ t' n. refl) only, (p, refl, e)))
  | inl e ↦
      let s1 : Singletons = record s { instances = update s.instances t (some fresh) } in
      let held : s1.instances t ≡ some fresh = ground arith in
      let others : (t' : ℕ) → (t' == t) ≡ false → s1.instances t' ≡ s.instances t' =
        λ t' n. rw n refl in
      let only : (t' : ℕ) → s.instances t' ≡ some fresh → t' ≡ t = λ t' h. absurd (unused t' h) in
      let there = not_there s frame t fresh s1 refl new held others only in
      rw (e, create, there)
        (returns (pushed-IsFrame s frame t fresh s1 refl new held others only, (fresh, refl, held)))
]
