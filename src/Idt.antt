-- ===== src/Idt.antt =====
-- kernel/src/idt.rs: the interrupt gates and what the kernel does with a fault. The assembly stubs,
-- loading the table and the line that is printed are left out; `cr2` is the address that
-- the processor holds, and a fatal fault, which does not return, is `false`.
pub mod Gates
use Prim.Native.String.{String}
use kfs.Base.{
  ℕ, zero, suc, ◌+◌, ◌*◌, ◌/◌, ◌%◌, ◌^◌, Bool, true, false, Option, none, some, List, [], ◌∷◌,
  bit_and, bit_or, ◌==◌, if◌then◌else◌, update, get_elem?,
}
use kfs.Gdt.{kernel_code}
use kfs.Paging.{Machine, handle_fault, oops}

abbrev pub vectors : ℕ
vectors = 32

abbrev pub slots : ℕ
slots = 256

abbrev pub page_fault : ℕ
page_fault = 14

abbrev pub interrupt_gate : ℕ
interrupt_gate = 0x8e

pub record Frame : Type 0 where
  pub edi : ℕ
  pub esi : ℕ
  pub ebp : ℕ
  pub esp : ℕ
  pub ebx : ℕ
  pub edx : ℕ
  pub ecx : ℕ
  pub eax : ℕ
  pub vector : ℕ
  pub error : ℕ
  pub eip : ℕ
  pub cs : ℕ
  pub eflags : ℕ

abbrev pub names : List String
names =
    "divide by zero" ∷ "debug" ∷ "non maskable interrupt" ∷ "breakpoint" ∷ "overflow"
    ∷ "bound range exceeded" ∷ "invalid opcode" ∷ "device not available" ∷ "double fault"
    ∷ "coprocessor segment overrun" ∷ "invalid task state segment" ∷ "segment not present"
    ∷ "stack segment fault" ∷ "general protection fault" ∷ "page fault" ∷ "reserved"
    ∷ "floating point error" ∷ "alignment check" ∷ "machine check" ∷ "simd floating point error"
    ∷ "virtualisation error" ∷ "control protection fault" ∷ "reserved" ∷ "reserved" ∷ "reserved"
    ∷ "reserved" ∷ "reserved" ∷ "reserved" ∷ "hypervisor injection" ∷ "vmm communication"
    ∷ "security fault" ∷ "reserved" ∷ []

pub name : ℕ → String
name vector = elim (get_elem? names vector) [ some text ↦ text | none ↦ "interrupt" ]

pub gate : ℕ → ℕ
gate handler =
    bit_or
      (bit_or (bit_or (bit_and handler 0xffff) (kernel_code * 2 ^ 16)) (interrupt_gate * 2 ^ 40))
      (handler / 2 ^ 16 * 2 ^ 48)

-- The loop of `install` over the table of 64-bit words, on the rounds that are left.
pub install_gates : (ℕ → ℕ) → (ℕ → ℕ) → ℕ → ℕ → ℕ → ℕ
install_gates stubs table zero vector = table
install_gates stubs table (suc left) vector =
    install_gates stubs (update table vector (gate (stubs vector))) left (suc vector)

pub install : (ℕ → ℕ) → (ℕ → ℕ) → ℕ → ℕ
install stubs table = install_gates stubs table vectors 0

-- Whether the fault is over, and the machine after it.
pub fault_entry : Machine → ℕ → Frame → Bool × Machine
fault_entry m cr2 frame =
    if frame.vector == page_fault
    then (let (handled, m1) = handle_fault m cr2 frame.error in
        if handled then (true, oops m1) else (false, m1))
    else (false, m)
