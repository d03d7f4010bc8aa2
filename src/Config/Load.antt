-- ===== src/Config/Load.antt =====
-- What `load_config` makes of the file.
use rune_old.Base.{
  ◌≡◌, refl, ◌↔◌, Option, none, some, List, [], ◌∷◌, Bytes, equal, equal_iff, Elem, head, tail,
  get_value_or, Bool-cases, Option-cases, inl, inr,
}
use rune_old.Config.{Values, config_key, load_keys, load_sections, load_config, get_string}
use rune_old.Ini.{IniReader, get_sections, get_keys, get_value, parse}
use rune_old.Maps.{find, assign, keys, bytes_eq}
use rune_old.Maps.Laws.{find-assign, Elem-keys, find_of_Elem}

-- The order in which a map is walked shows every key, and no other.
abbrev pub Visits : (List Bytes → List Bytes) → Type 0
Visits order = (xs : List Bytes) (x : Bytes) → Elem x (order xs) ↔ Elem x xs

module _ (order : List Bytes → List Bytes) (visits : Visits order) (reader : IniReader) where
  get_value-get_keys :
      (section key : Bytes)
      → Elem key (get_value_or (get_keys order section reader) [])
      → (v : Bytes) × (get_value section key reader ≡ some v)
  unfolding get_keys get_value
  get_value-get_keys section key m = elim (Option-cases (find section reader.section_map)) [
    | inl missing ↦
        let none_listed : Elem key [] = rw (missing, get_keys) at m in elim none_listed [ ]
    | inr (values, found) ↦
        let listed : Elem key (order (keys values)) = rw (found, get_keys) at m in
        let (v, f) = find_of_Elem key values ((visits (keys values) key).0 listed) in
        (v, rw (found, get_value) f)
  ]

  -- What the reader has a value for is listed.
  listed :
      (section key v : Bytes)
      → get_value section key reader ≡ some v
      → Elem key (get_value_or (get_keys order section reader) [])
        × Elem section (get_sections order reader)
  unfolding get_keys get_value get_sections
  listed section key v h = elim (Option-cases (find section reader.section_map)) [
    | inl missing ↦ let e : none ≡ some v = rw (missing, get_value) at h in cc
    | inr (values, found) ↦
        let f : find key values ≡ some v = rw (found, get_value) at h in
        (
          rw (found, get_keys) ((visits (keys values) key).1 (Elem-keys key values f)),
          (visits (keys reader.section_map) section).1 (Elem-keys section reader.section_map found),
        )
  ]

assign_hit :
    (c w target v : Bytes) (values : Values)
    → c ≡ target
    → w ≡ v
    → find target (assign c w values) ≡ some v
assign_hit c w target v values e f = rw (find-assign c target w values, (equal_iff c target).1 e, f)

assign_keep :
    (c w target v : Bytes) (values : Values)
    → (c ≡ target → w ≡ v)
    → find target values ≡ some v
    → find target (assign c w values) ≡ some v
assign_keep c w target v values agree h = elim (Bool-cases (equal c target)) [
  | inl same ↦ let e = (equal_iff c target).0 same in assign_hit c w target v values e (agree e)
  | inr other ↦ rw (find-assign c target w values, other) h
]

-- Whatever entry of the file is spelled `target` in the configuration has the value `v`.
abbrev pub Agree : IniReader → Bytes → Bytes → Type 0
Agree reader target v =
    (section key w : Bytes)
    → get_value section key reader ≡ some w
    → config_key section key ≡ target
    → w ≡ v

module _ (order : List Bytes → List Bytes) (reader : IniReader) (target v : Bytes) where
  abbrev AgreeOn : Bytes → List Bytes → Type 0
  AgreeOn section ks =
      (key : Bytes)
      → Elem key ks
      → config_key section key ≡ target
      → get_value_or (get_value section key reader) [] ≡ v

  load_keys_keep :
      (section : Bytes) (ks : List Bytes) (values : Values)
      → AgreeOn section ks
      → find target values ≡ some v
      → find target (load_keys order reader section ks values) ≡ some v
  unfolding load_keys
  load_keys_keep section [] values agree h = h
  load_keys_keep section (key ∷ ks) values agree h =
      load_keys_keep section ks _ (λ k e. agree k (tail e))
        (assign_keep _ _ target v values (agree key (head refl)) h)

  load_keys_hit :
      (section key : Bytes) (ks : List Bytes) (values : Values)
      → AgreeOn section ks
      → config_key section key ≡ target
      → Elem key ks
      → find target (load_keys order reader section ks values) ≡ some v
  unfolding load_keys
  load_keys_hit section key (k ∷ ks) values agree e (head same) =
      load_keys_keep section ks _ (λ k' m. agree k' (tail m))
        (assign_hit _ _ target v values (rw (← same) e) (agree k (head refl) (rw (← same) e)))
  load_keys_hit section key (k ∷ ks) values agree e (tail m) =
      load_keys_hit section key ks _ (λ k' m'. agree k' (tail m')) e m
  load_keys_hit section key [] values agree e m = elim m [ ]

  module _ (visits : Visits order) (agree : Agree reader target v) where
    listed-AgreeOn :
        (section : Bytes) → AgreeOn section (get_value_or (get_keys order section reader) [])
    listed-AgreeOn section key m e =
        let (w, found) = get_value-get_keys order visits reader section key m in
        rw found (agree section key w found e)

    load_sections_keep :
        (ss : List Bytes) (values : Values)
        → find target values ≡ some v
        → find target (load_sections order reader ss values) ≡ some v
    unfolding load_sections
    load_sections_keep [] values h = h
    load_sections_keep (s ∷ ss) values h =
        load_sections_keep ss _ (load_keys_keep s _ values (listed-AgreeOn s) h)

    load_sections_hit :
        (section key : Bytes) (ss : List Bytes) (values : Values)
        → config_key section key ≡ target
        → Elem key (get_value_or (get_keys order section reader) [])
        → Elem section ss
        → find target (load_sections order reader ss values) ≡ some v
    unfolding load_sections
    load_sections_hit section key (s ∷ ss) values e k (head same) =
        load_sections_keep ss _
          (load_keys_hit s key _ values (listed-AgreeOn s) (rw (← same) e) (rw (← same) k))
    load_sections_hit section key (s ∷ ss) values e k (tail m) =
        load_sections_hit section key ss _ e k m
    load_sections_hit section key [] values e k m = elim m [ ]

-- After `load_config`, an entry of the file is found under its name in the configuration, with the
-- value that the reader has for it, in whatever order the maps are walked, if no other entry that is
-- spelled the same has another value.
pub get_string-load_config :
    (order : List Bytes → List Bytes) (files : Bytes → Option Bytes)
    (filename section key v default_value : Bytes) (values : Values)
    → Visits order
    → let reader = parse files filename (record { section_map = []; errors = [] }) in
      get_value section key reader ≡ some v
      → Agree reader (config_key section key) v
      → get_string (load_config order files filename values) (config_key section key) default_value
        ≡ v
unfolding get_string load_config
get_string-load_config order files filename section key v default_value values visits found agree =
    let reader = parse files filename (record { section_map = []; errors = [] }) in
    let (k, s) = listed order visits reader section key v found in
    rw (
      load_sections_hit order reader (config_key section key) v visits agree section key
          (get_sections order reader) values refl k s,
      get_string,
    )
