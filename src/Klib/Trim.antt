-- ===== src/Klib/Trim.antt =====
-- `str::trim`, as kernel/src/klib.rs and kernel/src/shell.rs use it, on a text that has no space at its ends.
use kfs.Base.{ℕ, ◌≡◌, false, List, [], ◌∷◌, ◌++◌}
use kfs.Klib.{is_space, trim_start, trim_end, trim}

end_more : (x c : ℕ) (cs bs : List ℕ) → trim_end bs ≡ c ∷ cs → trim_end (x ∷ bs) ≡ x ∷ c ∷ cs
end_more x c cs bs e = unfold trim_end in rw (e, trim_end)

pub trim_end-kept :
    (xs : List ℕ) (c : ℕ) (cs : List ℕ)
    → trim_end (c ∷ cs) ≡ c ∷ cs
    → trim_end (xs ++ c ∷ cs) ≡ xs ++ c ∷ cs
trim_end-kept [] c cs e = e
trim_end-kept (x ∷ []) c cs e = end_more x c cs (c ∷ cs) e
trim_end-kept (x ∷ y ∷ ys) c cs e =
    end_more x y (ys ++ c ∷ cs) (y ∷ ys ++ c ∷ cs) (trim_end-kept (y ∷ ys) c cs e)

pub trim-kept :
    (b : ℕ) (bs : List ℕ) → is_space b ≡ false → trim_end (b ∷ bs) ≡ b ∷ bs → trim (b ∷ bs) ≡ b ∷ bs
unfolding trim trim_start
trim-kept b bs s e = rw s e
