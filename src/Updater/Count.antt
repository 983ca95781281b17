-- ===== src/Updater/Count.antt =====
-- The counter of `inc_P2P_enable_count` and the switch that it drives (nmoscommon/aggregator.py).
use nmos_common.Common.{
  ℕ, zero, suc, ◌+◌, ◌<◌, ◌≡◌, refl, ◌∙◌, inl, inr, Bool-cases, true, false, [], ◌∷◌, ◌++◌, arith,
  leb, if◌then◌else◌,
}
use nmos_common.Updater.{Updater, p2p_txt_recs, inc_p2p_enable_count, disable_p2p, enqueue}

-- `inc_P2P_enable_count`, n times
abbrev pub inc_times : ℕ → Updater → Updater
inc_times zero u = u
inc_times (suc n) u = inc_times n (inc_p2p_enable_count u)

-- the updater `n` increments after `u`, which was off and short of its cut-in count
abbrev pub counted : ℕ → Updater → Updater
counted n u =
    if leb u.p2p_cut_in_count (u.p2p_enable_count + n)
    then record u {
      p2p_enable = true;
      p2p_enable_count = u.p2p_cut_in_count;
      update_queue = u.update_queue ++ p2p_txt_recs u ∷ [];
    }
    else record u { p2p_enable_count = u.p2p_enable_count + n }

inc_when_on : (n : ℕ) (u : Updater) → u.p2p_enable ≡ true → inc_times n u ≡ u
unfolding inc_p2p_enable_count
inc_when_on zero u on = refl
inc_when_on (suc n) u on = ground (arith, inc_when_on n u)

inc_once :
    (u : Updater)
    → u.p2p_enable ≡ false
    → u.p2p_enable_count < u.p2p_cut_in_count
    → inc_p2p_enable_count u ≡ counted 1 u
unfolding inc_p2p_enable_count p2p_txt_recs
inc_once u off short = ground arith

-- From an updater that is off and short of its cut-in count, n increments switch it on exactly
-- when the count reaches the cut-in, and then they announce the service versions exactly once and
-- leave the count at the cut-in.
pub inc_times_lem :
    (n : ℕ) (u : Updater)
    → u.p2p_enable ≡ false
    → u.p2p_enable_count < u.p2p_cut_in_count
    → inc_times n u ≡ counted n u
unfolding p2p_txt_recs
inc_times_lem zero u off short = ground arith
inc_times_lem (suc n) u off short =
    rw (inc_once u off short) (elim (Bool-cases (leb u.p2p_cut_in_count (u.p2p_enable_count + 1))) [
      | inl on ↦ rw on (inc_when_on n _ refl ∙ ground arith)
      | inr more ↦ rw more (
          inc_times_lem n (record u { p2p_enable_count = u.p2p_enable_count + 1 }) off
            (ground arith)
          ∙ ground arith)
    ])

-- After `P2P_disable`, in whatever state, n increments later the updater is on exactly if n has
-- reached the cut-in count, if that is positive.
pub inc_times-disable_p2p :
    (n : ℕ) (u : Updater)
    → 0 < u.p2p_cut_in_count
    → (inc_times n (disable_p2p u)).p2p_enable ≡ leb u.p2p_cut_in_count n
unfolding disable_p2p
inc_times-disable_p2p n u h = elim (Bool-cases u.p2p_enable) [
  | inl on ↦ rw on (
      rw
        (inc_times_lem n
          (enqueue u.txt_rec_base (record u { p2p_enable = false; p2p_enable_count = 0 })) refl h)
        (ground arith))
  | inr off ↦ rw off (
      rw (inc_times_lem n (record u { p2p_enable = false; p2p_enable_count = 0 }) refl h)
        (ground arith))
]
