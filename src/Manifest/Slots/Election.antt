-- ===== src/Manifest/Slots/Election.antt =====
-- Which manifest a reader sees: the pure part of the argument.
use pqueue.Base.{
  ℕ, ◌<◌, ◌≡◌, refl, sym, ap, ◌∙◌, inl, inr, Bool, Option, none, some, arith, leb, Bool-cases,
  some-inj,
}
use pqueue.Manifest.{ManifestData}
use pqueue.Store.{Slot, slot_a, slot_b}
use pqueue.Manifest.Slots.{choose_inactive_slot, choose_winning_slot, other_slot, epoch_or_zero}

-- The manifest that a reader sees if the slot holds `mine` and the other slot holds `other`.
abbrev pub election : Slot → Option ManifestData → Option ManifestData → Option ManifestData
election slot_a mine other = choose_winning_slot mine other
election slot_b mine other = choose_winning_slot other mine

-- A manifest with an epoch above that of the other slot is seen.
pub election-newer :
    (slot : Slot) (new : ManifestData) (other : Option ManifestData)
    → ((o : ManifestData) → other ≡ some o → o.epoch < new.epoch)
    → election slot (some new) other ≡ some new
unfolding choose_winning_slot
election-newer slot_a new none h = refl
election-newer slot_a new (some o) h = ground (arith, h o refl)
election-newer slot_b new none h = refl
election-newer slot_b new (some o) h = ground (arith, h o refl)

pub election-none : (slot : Slot) (other : Option ManifestData) → election slot none other ≡ other
unfolding choose_winning_slot
election-none slot_a none = refl
election-none slot_a (some o) = refl
election-none slot_b none = refl
election-none slot_b (some o) = refl

-- The slot that is chosen for writing is not the one that is seen, and the other slot's manifest
-- has the winning epoch.
pub record IsInactive (slot : Slot) (mine other : Option ManifestData) (epoch : ℕ) : Type 0 where
  pub loses : election slot mine other ≡ other
  pub winning : (o : ManifestData) → other ≡ some o → o.epoch ≡ epoch

-- The slot of the fast path: the other one holds the manifest that is seen.
pub other-IsInactive :
    (slot : Slot) (mine other : Option ManifestData) (md : ManifestData)
    → election slot mine other ≡ some md
    → other ≡ some md
    → IsInactive slot mine other md.epoch
other-IsInactive slot mine other md seen e = record {
  loses = seen ∙ sym e;
  winning = λ o e'. ap ManifestData.epoch (some-inj (sym e' ∙ e));
}

abbrev pub mine_of : Slot → Option ManifestData → Option ManifestData → Option ManifestData
mine_of slot_a a b = a
mine_of slot_b a b = b

-- The slot of the slow path.
pub choose_inactive_slot-IsInactive :
    (exists_a : Bool) (a : Option ManifestData) (exists_b : Bool) (b : Option ManifestData)
    (slot : Slot)
    → choose_inactive_slot exists_a a exists_b b ≡ some slot
    → IsInactive slot
        (mine_of slot a b)
        (mine_of (other_slot slot) a b)
        (epoch_or_zero (choose_winning_slot a b))
unfolding choose_inactive_slot choose_winning_slot
choose_inactive_slot-IsInactive exists_a none exists_b none slot_a e = record {
  loses = refl;
  winning = λ o e'. cc;
}
choose_inactive_slot-IsInactive exists_a none exists_b none slot_b e = record {
  loses = refl;
  winning = λ o e'. cc;
}
choose_inactive_slot-IsInactive exists_a none exists_b (some b) slot_a e = record {
  loses = refl;
  winning = λ o e'. ap ManifestData.epoch (some-inj (sym e'));
}
choose_inactive_slot-IsInactive exists_a none exists_b (some b) slot_b e = cc
choose_inactive_slot-IsInactive exists_a (some a) exists_b none slot_a e = cc
choose_inactive_slot-IsInactive exists_a (some a) exists_b none slot_b e = record {
  loses = refl;
  winning = λ o e'. ap ManifestData.epoch (some-inj (sym e'));
}
choose_inactive_slot-IsInactive exists_a (some a) exists_b (some b) slot_a e =
    elim (Bool-cases (leb b.epoch a.epoch)) [
      | inl h ↦ cc
      | inr h ↦ record {
        loses = ground (arith, h);
        winning = λ o e'. ground (arith, h, some-inj e');
      }
    ]
choose_inactive_slot-IsInactive exists_a (some a) exists_b (some b) slot_b e =
    elim (Bool-cases (leb b.epoch a.epoch)) [
      | inl h ↦ record {
        loses = ground (arith, h);
        winning = λ o e'. ground (arith, h, some-inj e');
      }
      | inr h ↦ cc
    ]
