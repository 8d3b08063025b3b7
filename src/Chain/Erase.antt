-- ===== src/Chain/Erase.antt =====
-- Freeing some addresses of a heap and no others.
use so.Base.{◌≡◌, Bool, true, false, ◌||◌, none, refl, arith, ◌==◌, if◌then◌else◌}
use so.Base.Nodes.{Ptr, Heap, write}

-- `g` is `h` less the addresses that `gone` accepts.
abbrev pub Without : {A : Type 0} → (Ptr → Bool) → Heap A → Heap A → Type 0
Without gone h g = (a : Ptr) → g a ≡ (if gone a then none else h a)

pub write-none :
    {A : Type 0} (h : Heap A) (a b : Ptr) → write h a none b ≡ (if b == a then none else h b)
unfolding write
write-none h a b = refl

pub erased :
    {A : Type 0} (h : Heap A) (a b : Ptr) (t : Bool)
    → (if t then none else write h a none b) ≡ (if (b == a) || t then none else h b)
unfolding write
erased h a b true = ground arith
erased h a b false = ground arith
