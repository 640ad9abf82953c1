-- ===== src/Idt/Gates.antt =====
-- The gates of kernel/src/idt.rs as the processor reads them.
use kfs.Base.{
  ℕ, zero, suc, ◌+◌, ◌*◌, ◌/◌, ◌%◌, ◌^◌, ◌≤◌, ◌<◌, ◌≡◌, arith, Bool-cases, inl, inr, ltb, ◌==◌, ◌∙◌,
  update, bit_and, bit_or, if◌then◌else◌, ap, leb, ◌&&◌, sym, ==→eq,
}
use kfs.Base.Bits.{bit_and_low, bit_or_above}
use kfs.Idt.{gate, install_gates, install, vectors}

-- A gate to `handler` of the kernel's code, present, for the kernel's own interrupts.
pub record Wired (handler word : ℕ) : Type 0 where
  pub offset : word / 2 ^ 48 * 2 ^ 16 + word % 2 ^ 16 ≡ handler
  pub selector : word / 2 ^ 16 % 2 ^ 16 ≡ 8
  pub kind : word / 2 ^ 32 % 2 ^ 16 ≡ 0x8e00
  pub fits : word < 2 ^ 64

gate_lem :
    (h : ℕ) → h < 2 ^ 32 → gate h ≡ h / 2 ^ 16 * 2 ^ 48 + 0x8e * 2 ^ 40 + 8 * 2 ^ 16 + h % 2 ^ 16
unfolding gate
gate_lem h fits =
    let a : bit_and h 0xffff ≡ h % 2 ^ 16 = bit_and_low 16 h in
    let b : bit_or (h % 2 ^ 16) (8 * 2 ^ 16) ≡ 8 * 2 ^ 16 + h % 2 ^ 16 =
      bit_or_above 16 (h % 2 ^ 16) 8 (omega arith) in
    let c : bit_or (8 * 2 ^ 16 + h % 2 ^ 16) (0x8e * 2 ^ 40)
        ≡ 0x8e * 2 ^ 40 + (8 * 2 ^ 16 + h % 2 ^ 16) =
      bit_or_above 40 (8 * 2 ^ 16 + h % 2 ^ 16) 0x8e (omega arith) in
    rw (a, b, c)
      (bit_or_above 48 (0x8e * 2 ^ 40 + (8 * 2 ^ 16 + h % 2 ^ 16)) (h / 2 ^ 16) (omega arith)
        ∙ omega arith)

gate-Wired : (h : ℕ) → h < 2 ^ 32 → Wired h (gate h)
gate-Wired h fits = rw (gate_lem h fits) (record {
  offset = omega arith;
  selector = omega arith;
  kind = omega arith;
  fits = omega arith;
})

installed :
    (stubs table : ℕ → ℕ) (left from v : ℕ)
    → install_gates stubs table left from v
      ≡ (if leb from v && ltb v (from + left) then gate (stubs v) else table v)
unfolding install_gates
installed stubs table zero from v = ground arith
installed stubs table (suc left) from v =
    installed stubs (update table from (gate (stubs from))) left (suc from) v
    ∙ elim (Bool-cases (v == from)) [
      | inl here ↦
          let s : gate (stubs from) ≡ gate (stubs v) =
            ap (λ n. gate (stubs n)) (sym (==→eq v from here)) in
          ground (arith, here, s)
      | inr other ↦ ground arith
    ]

-- After `install` each of the 32 exceptions has a gate of the kernel's to its own stub, and
-- the other slots are as they were.
pub install-Wired :
    (stubs table : ℕ → ℕ) (v u : ℕ)
    → ((i : ℕ) → stubs i < 2 ^ 32)
    → v < vectors
    → vectors ≤ u
    → Wired (stubs v) (install stubs table v) × (install stubs table u ≡ table u)
unfolding install
install-Wired stubs table v u fits low high =
    let e : install_gates stubs table 32 0 v ≡ gate (stubs v) =
      installed stubs table 32 0 v ∙ ground arith in
    let other : install_gates stubs table 32 0 u ≡ table u =
      installed stubs table 32 0 u ∙ ground arith in
    (rw e (gate-Wired (stubs v) (fits v)), other)
