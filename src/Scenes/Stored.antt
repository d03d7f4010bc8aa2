-- ===== src/Scenes/Stored.antt =====
-- What the loading of a scene relies on from the entity registry: an entity that is created is a new
-- one with no components, and a component that is put in place leaves all else.
use rune_old.Base.{ℕ, Bool, true, false, Option, none, some, ◌≡◌, ◌≢◌, sym, ◌∙◌, subst, ap, Bytes}
use rune_old.Scenes.{StaticRenderer, Registry}

-- The components of an entity; that of a camera is its window.
pub record Components (T : Type 0) : Type 0 where
  pub transform : Option T
  pub renderer : Option StaticRenderer
  pub camera : Option ℕ
  pub script : Option Bytes

abbrev pub no_components : {T : Type 0} → Components T
no_components = record { transform = none; renderer = none; camera = none; script = none }

module _ {Reg T : Type 0} (is_valid : ℕ → Reg → Bool) (components : ℕ → Reg → Components T) where
  -- A component that the entity lacks is put in place, and nothing else changes.
  pub record Emplaces (emplace : ℕ → Reg → Reg) (set : Components T → Components T)
      (Lacks : Components T → Type 0) : Type 0 where
    pub here :
        (e : ℕ) (reg : Reg)
        → is_valid e reg ≡ true
        → Lacks (components e reg)
        → components e (emplace e reg) ≡ set (components e reg)
    pub valid :
        (e j : ℕ) (reg : Reg)
        → is_valid e reg ≡ true
        → Lacks (components e reg)
        → is_valid j reg ≡ true
        → is_valid j (emplace e reg) ≡ true
    pub others :
        (e j : ℕ) (reg : Reg)
        → is_valid e reg ≡ true
        → Lacks (components e reg)
        → j ≢ e
        → components j (emplace e reg) ≡ components j reg

  pub record Stores (g : Registry Reg T) : Type 0 where
    pub created_new : (reg : Reg) → is_valid (g.create reg).0 reg ≡ false
    pub created_valid : (reg : Reg) → is_valid (g.create reg).0 (g.create reg).1 ≡ true
    pub created_empty : (reg : Reg) → components (g.create reg).0 (g.create reg).1 ≡ no_components
    pub still_valid :
        (j : ℕ) (reg : Reg) → is_valid j reg ≡ true → is_valid j (g.create reg).1 ≡ true
    pub still_same :
        (j : ℕ) (reg : Reg)
        → is_valid j reg ≡ true
        → components j (g.create reg).1 ≡ components j reg
    pub transforms :
        (t : T)
        → Emplaces
            (λ e reg. g.emplace_transform e t reg)
            (λ c. record c { transform = some t })
            (λ c. c.transform ≡ none)
    pub renderers :
        (r : StaticRenderer)
        → Emplaces
            (λ e reg. g.emplace_static_renderer e r reg)
            (λ c. record c { renderer = some r })
            (λ c. c.renderer ≡ none)
    pub cameras :
        (window : ℕ)
        → Emplaces
            (λ e reg. g.emplace_camera e window reg)
            (λ c. record c { camera = some window })
            (λ c. c.camera ≡ none)
    pub scripts :
        (name : Bytes)
        → Emplaces
            (λ e reg. g.emplace_script e name reg)
            (λ c. record c { script = some name })
            (λ c. c.script ≡ none)

  -- The entities of one registry are those of another one, with the same components.
  abbrev pub Keeps : Reg → Reg → Type 0
  Keeps reg reg' =
      (j : ℕ)
      → is_valid j reg ≡ true
      → (is_valid j reg' ≡ true) × (components j reg' ≡ components j reg)

  -- Behind the creation of an entity: it has some components, and all else is as it was.
  pub record Built (before : Reg) (e : ℕ) (c : Components T) (reg : Reg) : Type 0 where
    pub new : is_valid e before ≡ false
    pub valid : is_valid e reg ≡ true
    pub has : components e reg ≡ c
    pub keeps : Keeps before reg

  pub create-Built :
      (g : Registry Reg T) (reg : Reg)
      → Stores g
      → Built reg (g.create reg).0 no_components (g.create reg).1
  create-Built g reg s = record {
    new = s.created_new reg;
    valid = s.created_valid reg;
    has = s.created_empty reg;
    keeps = λ j v. (s.still_valid j reg v, s.still_same j reg v);
  }

  pub emplace-Built :
      {emplace : ℕ → Reg → Reg} {set : Components T → Components T} {Lacks : Components T → Type 0}
      → Emplaces emplace set Lacks
      → {before : Reg} {e : ℕ} {c : Components T} {reg : Reg} → Built before e c reg
      → Lacks c
      → Built before e (set c) (emplace e reg)
  emplace-Built {set = set} {Lacks = Lacks} law {before = before} {e = e} {reg = reg} b lacks =
      let lacks' = subst Lacks (sym b.has) lacks in
      record {
        new = b.new;
        valid = law.valid e e reg b.valid lacks' b.valid;
        has = law.here e reg b.valid lacks' ∙ ap set b.has;
        keeps = λ j v.
            let other : j ≢ e = λ same. cc (b.new, subst (λ i. is_valid i before ≡ true) same v) in
            (
              law.valid e j reg b.valid lacks' (b.keeps j v).0,
              law.others e j reg b.valid lacks' other ∙ (b.keeps j v).1,
            );
      }
