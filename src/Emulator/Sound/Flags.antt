-- ===== src/Emulator/Sound/Flags.antt =====
-- What the emulation of shifts, tests and comparisons says of a run.
use drob.Prelude.{◌==◌, ◌≡◌, refl, not, Option, some, List, ◌∷◌, if_cases, ◌>>=◌, leb}
use drob.Value.{DynamicValue, imm64, unknown_value}
use drob.Value.Laws.{Bases, Allows}
use drob.Emulator.{DynamicOperandInfo, Eflags, ok, Emulation, set_cf, set_af, set_of}
use drob.Emulator.Arith.{shift_flags, shift_is, clear_flags}
use drob.Emulator.Shape.{
  FlagOperands, flag_list, AreFlags, FlagsAllow, with_output, set_cf-eq, set_af-eq, set_of-eq,
}

-- The flags of the operands allow those of a run, with the flags where the handlers look for them.
pub record FlagsAt (base : Bases) (x y : DynamicOperandInfo) (e : Eflags)
    (m : Option (List DynamicOperandInfo)) : Type 0 where
  pub flags : FlagOperands
  pub kept : AreFlags flags
  pub returns : m ≡ some (x ∷ y ∷ flag_list flags)
  pub flags_allow : FlagsAllow base flags e

-- The emulation returns with the first two operands as given and flags that allow those of a run.
pub record Flagged (base : Bases) (x y : DynamicOperandInfo) (e : Eflags) (m : Emulation)
    : Type 0 where
  pub flags : FlagOperands
  pub returns : m ≡ some (x ∷ y ∷ flag_list flags, ok)
  pub flags_allow : FlagsAllow base flags e

module _ (base : Bases) (x y : DynamicOperandInfo) (e : Eflags) where
  flags_then :
      (m : Option (List DynamicOperandInfo)) (k : List DynamicOperandInfo → Emulation)
      → FlagsAt base x y e m
      → ((fl : FlagOperands)
          → AreFlags fl
          → FlagsAllow base fl e
          → Flagged base x y e (k (x ∷ y ∷ flag_list fl)))
      → Flagged base x y e (m >>= k)
  flags_then m k r next = rw r.returns (next r.flags r.kept r.flags_allow)

  module _ (fl : FlagOperands) (h : AreFlags fl) (p : FlagsAllow base fl e) where
    flags_unchanged : FlagsAt base x y e (some (x ∷ y ∷ flag_list fl))
    flags_unchanged = record { flags = fl; kept = h; returns = refl; flags_allow = p }

    -- A flag whose output allows the one of the run.
    cf_set :
        (v : DynamicValue)
        → Allows base v e.carry
        → FlagsAt base x y e (set_cf (x ∷ y ∷ flag_list fl) 2 v)
    cf_set v q = record {
      flags = record fl { cf_op = with_output fl.cf_op v };
      kept = record { cf_first = h.cf_first; af_third = h.af_third; of_last = h.of_last };
      returns = set_cf-eq x y fl h v;
      flags_allow = record {
        cf_allows = q;
        pf_allows = p.pf_allows;
        af_allows = p.af_allows;
        zf_allows = p.zf_allows;
        sf_allows = p.sf_allows;
        of_allows = p.of_allows;
      };
    }

    of_set :
        (v : DynamicValue)
        → Allows base v e.overflow
        → FlagsAt base x y e (set_of (x ∷ y ∷ flag_list fl) 7 v)
    of_set v q = record {
      flags = record fl { of_op = with_output fl.of_op v };
      kept = record { cf_first = h.cf_first; af_third = h.af_third; of_last = h.of_last };
      returns = set_of-eq x y fl h v;
      flags_allow = record {
        cf_allows = p.cf_allows;
        pf_allows = p.pf_allows;
        af_allows = p.af_allows;
        zf_allows = p.zf_allows;
        sf_allows = p.sf_allows;
        of_allows = q;
      };
    }

    af_set :
        (v : DynamicValue)
        → Allows base v e.adjust
        → FlagsAt base x y e (set_af (x ∷ y ∷ flag_list fl) 4 v)
    af_set v q = record {
      flags = record fl { af_op = with_output fl.af_op v };
      kept = record { cf_first = h.cf_first; af_third = h.af_third; of_last = h.of_last };
      returns = set_af-eq x y fl h v;
      flags_allow = record {
        cf_allows = p.cf_allows;
        pf_allows = p.pf_allows;
        af_allows = q;
        zf_allows = p.zf_allows;
        sf_allows = p.sf_allows;
        of_allows = p.of_allows;
      };
    }

  finished :
      (fl : FlagOperands)
      → FlagsAllow base fl e
      → Flagged base x y e (some (x ∷ y ∷ flag_list fl, ok))
  finished fl p = record { flags = fl; returns = refl; flags_allow = p }

  pub shift_flags-Flagged :
      (fl : FlagOperands) (w : DynamicValue)
      → AreFlags fl
      → FlagsAllow base fl e
      → Flagged base x y e (shift_flags (x ∷ y ∷ flag_list fl) w)
  unfolding shift_flags
  shift_flags-Flagged fl w h p =
      flags_then _ _
        (if_cases (FlagsAt base x y e) (shift_is (λ k. not (k == 1)) w)
          (λ _. of_set fl h p unknown_value tt) (λ _. flags_unchanged fl h p))
        λ fl1 h1 p1.
          flags_then _ _
            (if_cases (FlagsAt base x y e) (shift_is (λ k. leb 64 k) w)
              (λ _. cf_set fl1 h1 p1 unknown_value tt) (λ _. flags_unchanged fl1 h1 p1))
            λ fl2 h2 p2.
              flags_then _ _ (af_set fl2 h2 p2 unknown_value tt) λ fl3 h3 p3. finished fl3 p3

  -- What `testN` does once the flags of the processor are set.
  pub clear_flags-Flagged :
      (fl : FlagOperands)
      → AreFlags fl
      → FlagsAllow base fl e
      → e.carry ≡ 0
      → e.overflow ≡ 0
      → Flagged base x y e (clear_flags (x ∷ y ∷ flag_list fl))
  unfolding clear_flags
  clear_flags-Flagged fl h p no_carry no_overflow =
      flags_then _ _ (cf_set fl h p (imm64 0) no_carry) λ fl1 h1 p1.
        flags_then _ _ (af_set fl1 h1 p1 unknown_value tt) λ fl2 h2 p2.
          flags_then _ _ (of_set fl2 h2 p2 (imm64 0) no_overflow) λ fl3 h3 p3. finished fl3 p3
