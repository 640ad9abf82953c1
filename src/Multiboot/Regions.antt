-- ===== src/Multiboot/Regions.antt =====
-- `Ram` of kernel/src/multiboot.rs: the usable regions of memory, in an array with a count.
pub mod Bounds
use Prim.Native.String.{String}
use kfs.Base.{
  ℕ, zero, suc, ◌+◌, ◌-◌, ◌%◌, ◌^◌, Bool, true, false, ◌||◌, List, [], ◌∷◌, min, ltb, leb, ◌==◌,
  if◌then◌else◌, u32_max, update, sub32,
}

pub record Region : Type 0 where
  pub base : ℕ
  pub end : ℕ

abbrev pub max_regions : ℕ
max_regions = 12

pub record Ram : Type 0 where
  pub regions : ℕ → Region
  pub count : ℕ
  pub usable : ℕ
  pub highest : ℕ
  pub source : String

abbrev pub nothing : Ram
nothing = record {
  regions = λ i. record { base = 0; end = 0 };
  count = 0;
  usable = 0;
  highest = 0;
  source = "none";
}

-- `base.saturating_add(length)` on `u64`.
abbrev pub saturating_add : ℕ → ℕ → ℕ → ℕ
saturating_add w a b = min (a + b) (2 ^ w - 1)

-- The end that fits into 32 bits.
abbrev pub end_of : ℕ → ℕ
end_of top = if ltb u32_max top then u32_max - 0xfff else top

abbrev pub add_region : Ram → ℕ → ℕ → Ram
add_region ram base end = record ram {
  regions = update ram.regions ram.count (record { base = base; end = end });
  count = ram.count + 1;
  usable = (ram.usable + (end - base)) % 2 ^ 64;
  highest = if ltb ram.highest end then end else ram.highest;
}

unfoldable pub push : Ram → ℕ → ℕ → Ram
push ram base length =
    if ram.count == max_regions || length == 0
    then ram
    else (let top = saturating_add 64 base length in
        if leb u32_max base
        then ram
        else (if leb (end_of top) base then ram else add_region ram base (end_of top)))
