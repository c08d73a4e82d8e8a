-- ===== src/Nas/Laws.antt =====
-- The server that is chosen is eligible, and no eligible server is used less.
use test_powerstore_automati.Base.{
  ℕ, ◌≡◌, refl, sym, ap, ◌∙◌, Bool, true, false, Bool-cases, Option, none, some, List, [], ◌∷◌,
  String, Dict, Member, text_lt, text_lt_irrefl, arith, inl, inr,
}
use test_powerstore_automati.Client.{Nas}
use test_powerstore_automati.Cooldown.{NasCooldown}
use test_powerstore_automati.Nas.{
  is_eligible_nas, is_less_used, less_used, find_from, find_least_used_active_nas,
}

text_lt_neg_trans :
    (s t u : String) → text_lt s t ≡ false → text_lt t u ≡ false → text_lt s u ≡ false
text_lt_neg_trans s t String.[] h k = refl
text_lt_neg_trans s String.[] (String.◌∷◌ e u) h k = cc
text_lt_neg_trans String.[] (String.◌∷◌ d t) (String.◌∷◌ e u) h k = cc
text_lt_neg_trans (String.◌∷◌ c s) (String.◌∷◌ d t) (String.◌∷◌ e u) h k =
    ground (arith, text_lt_neg_trans s t u)

text_lt_asym : (s t : String) → text_lt s t ≡ true → text_lt t s ≡ false
text_lt_asym s String.[] h = cc
text_lt_asym String.[] (String.◌∷◌ d t) h = refl
text_lt_asym (String.◌∷◌ c s) (String.◌∷◌ d t) h = ground (arith, text_lt_asym s t)

is_less_used_neg_trans :
    (a b d : Nas) → is_less_used a b ≡ false → is_less_used b d ≡ false → is_less_used a d ≡ false
unfolding is_less_used
is_less_used_neg_trans a b d h k = ground (arith, text_lt_neg_trans a.name b.name d.name)

is_less_used_asym : (a b : Nas) → is_less_used a b ≡ true → is_less_used b a ≡ false
unfolding is_less_used
is_less_used_asym a b h = ground (arith, text_lt_asym a.name b.name)

is_less_used_irrefl : (a : Nas) → is_less_used a a ≡ false
unfolding is_less_used
is_less_used_irrefl a = ground (arith, text_lt_irrefl a.name)

module _ (eligible : Nas → Bool) where
  -- The server that is found from here on is eligible and not used more than the given one.
  abbrev pub Serves : Option Nas → Nas → Type 0
  Serves found y = (n : Nas) × (found ≡ some n) × (eligible n ≡ true) × (is_less_used y n ≡ false)

  find_from-chosen :
      (ns : List Nas) (y b : Nas)
      → eligible b ≡ true
      → is_less_used y b ≡ false
      → Serves (find_from eligible ns (some b)) y
  unfolding find_from
  find_from-chosen [] y b e h = (b, refl, e, h)
  find_from-chosen (n ∷ ns) y b e h = elim (Bool-cases (eligible n)) [
    | inr f ↦ rw f (find_from-chosen ns y b e h)
    | inl f ↦ elim (Bool-cases (is_less_used n b)) [
      | inr k ↦ rw (f, k) (find_from-chosen ns y b e h)
      | inl k ↦
          rw (f, k)
            (find_from-chosen ns y n f (is_less_used_neg_trans y b n h (is_less_used_asym n b k)))
    ]
  ]

  abbrev IsChoice : Option Nas → Type 0
  IsChoice none = Unit
  IsChoice (some b) = eligible b ≡ true

  less_used-eligible :
      (n : Nas) (chosen : Option Nas)
      → eligible n ≡ true
      → IsChoice chosen
      → eligible (less_used n chosen) ≡ true
  less_used-eligible n none e h = e
  less_used-eligible n (some b) e h = elim (Bool-cases (is_less_used n b)) [
    | inl k ↦ rw k e
    | inr k ↦ rw k h
  ]

  find_from-here :
      (ns : List Nas) (y : Nas) (chosen : Option Nas)
      → eligible y ≡ true
      → IsChoice chosen
      → Serves (find_from eligible ns (some (less_used y chosen))) y
  find_from-here ns y none e h = find_from-chosen ns y y e (is_less_used_irrefl y)
  find_from-here ns y (some b) e h = elim (Bool-cases (is_less_used y b)) [
    | inl k ↦ rw k (find_from-chosen ns y y e (is_less_used_irrefl y))
    | inr k ↦ rw k (find_from-chosen ns y b h k)
  ]

  find_from-Serves :
      (ns : List Nas) (chosen : Option Nas) (y : Nas)
      → IsChoice chosen
      → Member y ns
      → eligible y ≡ true
      → Serves (find_from eligible ns chosen) y
  unfolding find_from
  find_from-Serves [] chosen y h m e = absurd m
  find_from-Serves (n ∷ ns) chosen y h (inl p) e =
      let here = sym (ap eligible p) ∙ e in rw p (rw here (find_from-here ns n chosen here h))
  find_from-Serves (n ∷ ns) chosen y h (inr m) e = elim (Bool-cases (eligible n)) [
    | inr f ↦ rw f (find_from-Serves ns chosen y h m e)
    | inl f ↦
        rw f
          (find_from-Serves ns (some (less_used n chosen)) y (less_used-eligible n chosen f h) m e)
  ]

-- If a server of the list is eligible, then `findLeastUsedActiveNAS` finds a server, which is
-- eligible and not used more than that one: it has at most as many filesystems, and of as many not
-- the greater name.
pub find_least_used_active_nas-Serves :
    (tracker : NasCooldown) (now : ℕ) (nas_map : Dict Bool) (nas_list : List Nas) (y : Nas)
    → Member y nas_list
    → is_eligible_nas tracker now nas_map y ≡ true
    → Serves
        (is_eligible_nas tracker now nas_map)
        (find_least_used_active_nas tracker now nas_list nas_map)
        y
unfolding find_least_used_active_nas
find_least_used_active_nas-Serves tracker now nas_map nas_list y =
    find_from-Serves (is_eligible_nas tracker now nas_map) nas_list none y tt
