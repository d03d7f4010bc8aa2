-- ===== src/Engine/Startup.antt =====
-- What `provide_all` leaves in the engine: the vector by falling priority, and every system found
-- under its hash.
use rune_old.Base.{
  ℕ, false, ◌≡◌, ◌≢◌, refl, ap, some, List, [], ◌∷◌, ◌++◌, ◌==◌, ==_iff, if◌then◌else◌, arith, All,
  Bool-cases, inl, inr,
}
use rune_old.Engine.Priority.{Falls, Sorts, sort-Falls}
use rune_old.Engine.{
  SystemKind, logging, events, platform, renderer, scripting, resources, scene, Entry, Engine,
  update_priority, has_priority, get_system, set_system_priority, provide, provide_all,
}
use rune_old.Maps.{nat_eq}
use rune_old.Maps.Laws.{find-assign}

abbrev pub Ranking : Type 0
Ranking = List (SystemKind × ℕ)

-- The systems with their priorities, the highest first.
abbrev pub ranking : Ranking
ranking =
    (logging, 100)
    ∷ (events, 90)
    ∷ (platform, 80)
    ∷ (renderer, 50)
    ∷ (scripting, 40)
    ∷ (resources, 20)
    ∷ (scene, 10)
    ∷ []

-- Systems of different classes have different hashes.
abbrev pub Distinct : (SystemKind → ℕ) → Type 0
Distinct hash_code = (j k : SystemKind) → hash_code j ≡ hash_code k → j ≡ k

-- None of the systems is `k`.
abbrev Lacks : SystemKind → Ranking → Type 0
Lacks k [] = Unit
Lacks k ((j, q) ∷ r) = (j ≢ k) × Lacks k r

module _ (hash_code : SystemKind → ℕ) where
  abbrev pub entries : Ranking → List Entry
  entries [] = []
  entries ((k, p) ∷ r) = (hash_code k, p) ∷ entries r

  entries-concat :
      (r : Ranking) (k : SystemKind) (p : ℕ)
      → entries (r ++ (k, p) ∷ []) ≡ entries r ++ (hash_code k, p) ∷ []
  entries-concat [] k p = refl
  entries-concat ((j, q) ∷ r) k p = ap (◌∷◌ (hash_code j, q)) (entries-concat r k p)

  pub hash_ne :
      Distinct hash_code → (j k : SystemKind) → j ≢ k → (hash_code j == hash_code k) ≡ false
  hash_ne distinct j k h = elim (Bool-cases (hash_code j == hash_code k)) [
    | inl e ↦ absurd (h (distinct j k ((==_iff (hash_code j) (hash_code k)).0 e)))
    | inr e ↦ e
  ]

  has_priority-Lacks :
      Distinct hash_code
      → (k : SystemKind) (r : Ranking) → Lacks k r
      → has_priority (hash_code k) (entries r) ≡ false
  unfolding has_priority
  has_priority-Lacks distinct k [] h = refl
  has_priority-Lacks distinct k ((j, q) ∷ r) h =
      rw (hash_ne distinct j k h.0) (has_priority-Lacks distinct k r h.1)

  update_priority-Lacks :
      Distinct hash_code
      → (k : SystemKind) (p : ℕ) (r : Ranking) → Lacks k r
      → update_priority (hash_code k) p (entries r) ≡ entries r
  unfolding update_priority
  update_priority-Lacks distinct k p [] h = refl
  update_priority-Lacks distinct k p ((j, q) ∷ r) h =
      rw (hash_ne distinct j k h.0, update_priority-Lacks distinct k p r h.1)

  module _ {D : Type 0} (sort : List Entry → List Entry) (sorts : Sorts sort)
      (distinct : Distinct hash_code) where
    set_system_priority-Falls :
        (k : SystemKind) (p : ℕ) (r : Ranking) (e : Engine D)
        → e.system_priority_vec ≡ entries r
        → Lacks k r
        → Falls (entries (r ++ (k, p) ∷ []))
        → (provide hash_code sort k p e).system_priority_vec ≡ entries (r ++ (k, p) ∷ [])
    unfolding provide set_system_priority
    set_system_priority-Falls k p r e h lacks falls =
        rw
          (
            h,
            has_priority-Lacks distinct k r lacks,
            update_priority-Lacks distinct k p r lacks,
            ← entries-concat r k p,
          )
          (sort-Falls sort _ sorts falls)

    -- All of `ks` are found under their hashes.
    abbrev Provided : List SystemKind → Engine D → Type 0
    Provided ks e = All (λ k. get_system hash_code k e ≡ some k) ks

    get_system-provide :
        (j k : SystemKind) (p : ℕ) (e : Engine D)
        → get_system hash_code j (provide hash_code sort k p e)
          ≡ (if hash_code k == hash_code j then some k else get_system hash_code j e)
    unfolding get_system provide set_system_priority
    get_system-provide j k p e = find-assign (hash_code k) (hash_code j) k e.system_map

    get_system-provide_kept :
        (j k : SystemKind) (p : ℕ) (e : Engine D)
        → get_system hash_code j e ≡ some j
        → get_system hash_code j (provide hash_code sort k p e) ≡ some j
    get_system-provide_kept j k p e g = elim (Bool-cases (hash_code k == hash_code j)) [
      | inl same ↦
          rw (get_system-provide j k p e, same)
            (ap some (distinct k j ((==_iff (hash_code k) (hash_code j)).0 same)))
      | inr other ↦ rw (get_system-provide j k p e, other) g
    ]

    Provided-provide_kept :
        (k : SystemKind) (p : ℕ) (ks : List SystemKind) (e : Engine D)
        → Provided ks e
        → Provided ks (provide hash_code sort k p e)
    Provided-provide_kept k p [] e h = tt
    Provided-provide_kept k p (j ∷ ks) e h =
        (get_system-provide_kept j k p e h.0, Provided-provide_kept k p ks e h.1)

    -- The vector is that of the ranking, and the systems are provided.
    abbrev Stands : Ranking → List SystemKind → Engine D → Type 0
    Stands r ks e = (e.system_priority_vec ≡ entries r) × Provided ks e

    Stands-provide :
        (k : SystemKind) (p : ℕ) (r : Ranking) (ks : List SystemKind) (e : Engine D)
        → Stands r ks e
        → Lacks k r
        → Falls (entries (r ++ (k, p) ∷ []))
        → Stands (r ++ (k, p) ∷ []) (k ∷ ks) (provide hash_code sort k p e)
    Stands-provide k p r ks e h lacks falls = (
      set_system_priority-Falls k p r e h.0 lacks falls,
      (
        rw (get_system-provide k k p e, (==_iff (hash_code k) (hash_code k)).1 refl),
        Provided-provide_kept k p ks e h.1,
      ),
    )

    pub Stands-provide_all :
        (e : Engine D)
        → e.system_priority_vec ≡ []
        → Stands ranking
            (scene ∷ resources ∷ scripting ∷ renderer ∷ platform ∷ events ∷ logging ∷ [])
            (provide_all hash_code sort e)
    unfolding provide_all
    Stands-provide_all e h =
        let r0 : Ranking = [] in
        let r1 = r0 ++ (logging, 100) ∷ [] in
        let r2 = r1 ++ (events, 90) ∷ [] in
        let r3 = r2 ++ (platform, 80) ∷ [] in
        let r4 = r3 ++ (renderer, 50) ∷ [] in
        let r5 = r4 ++ (scripting, 40) ∷ [] in
        let r6 = r5 ++ (resources, 20) ∷ [] in
        let k1 : List SystemKind = logging ∷ [] in
        let k2 = events ∷ k1 in
        let k3 = platform ∷ k2 in
        let k4 = renderer ∷ k3 in
        let k5 = scripting ∷ k4 in
        let k6 = resources ∷ k5 in
        let s1 = Stands-provide logging 100 r0 [] e (h, tt) tt (omega arith) in
        let s2 = Stands-provide events 90 r1 k1 _ s1 (ground arith) (omega arith) in
        let s3 = Stands-provide platform 80 r2 k2 _ s2 (ground arith) (omega arith) in
        let s4 = Stands-provide renderer 50 r3 k3 _ s3 (ground arith) (omega arith) in
        let s5 = Stands-provide scripting 40 r4 k4 _ s4 (ground arith) (omega arith) in
        let s6 = Stands-provide resources 20 r5 k5 _ s5 (ground arith) (omega arith) in
        Stands-provide scene 10 r6 k6 _ s6 (ground arith) (omega arith)

    -- Every system is found behind `provide_all`.
    pub get_system-provide_all :
        (e : Engine D)
        → e.system_priority_vec ≡ []
        → (k : SystemKind) → get_system hash_code k (provide_all hash_code sort e) ≡ some k
    get_system-provide_all e h k = pick k (Stands-provide_all e h).1
      where
        pick :
            (k : SystemKind)
            → Provided
                (scene ∷ resources ∷ scripting ∷ renderer ∷ platform ∷ events ∷ logging ∷ [])
                (provide_all hash_code sort e)
            → get_system hash_code k (provide_all hash_code sort e) ≡ some k
        pick scene p = p.0
        pick resources p = p.1.0
        pick scripting p = p.1.1.0
        pick renderer p = p.1.1.1.0
        pick platform p = p.1.1.1.1.0
        pick events p = p.1.1.1.1.1.0
        pick logging p = p.1.1.1.1.1.1.0
