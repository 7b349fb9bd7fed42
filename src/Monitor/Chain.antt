-- ===== src/Monitor/Chain.antt =====
-- What a blacklist in memory stands for: its nodes in order, each with its address and path.
use reference_monitor.Base.{
  ==_iff, ==_refl, Bool, Bool-cases, List, Option, [], arith, false, inl, inr, none, refl, some,
  subst, true, ◌==◌, ◌||◌, ◌∙◌, ◌∷◌, ◌≡◌, ◌≢◌,
}
use reference_monitor.Monitor.{
  FilePath, Monitor, Node, Nodes, Ptr, load, node, null, set_next, store, write,
}
use reference_monitor.Run.{done}

abbrev pub Cells : Type 0
Cells = List (Ptr × FilePath)

abbrev pub paths : Cells → List FilePath
paths [] = []
paths ((a, s) ∷ xs) = s ∷ paths xs

-- The address of the first node, or `stop`.
abbrev pub start : Ptr → Cells → Ptr
start stop [] = stop
start stop ((a, s) ∷ xs) = a

abbrev pub has : Ptr → Cells → Bool
has b [] = false
has b ((a, s) ∷ xs) = (b == a) || has b xs

-- The nodes `xs` lie in memory, each linked to the one behind it and the last to NULL, and no
-- address occurs twice.
abbrev pub Chain : Nodes → Cells → Type 0
Chain h [] = Unit {0}
Chain h ((a, s) ∷ xs) =
    (a ≢ null) × (h a ≡ some (node s (start null xs))) × (has a xs ≡ false) × Chain h xs

-- The monitor's list is `xs`.
pub record IsList (m : Monitor) (xs : Cells) : Type 0 where
  pub head : m.head ≡ start null xs
  pub chain : Chain m.nodes xs

-- A chain survives any change that spares its own addresses.
pub Chain-frame :
    (h g : Nodes) (xs : Cells) → ((b : Ptr) → has b xs ≡ true → g b ≡ h b) → Chain h xs → Chain g xs
Chain-frame h g [] same c = tt
Chain-frame h g ((a, s) ∷ xs) same c =
    (c.0, same a (rw (==_refl a)) ∙ c.1, c.2, Chain-frame h g xs (λ b i. same b (ground arith)) c.3)

-- No node of a chain lies where there is none.
pub Chain-none : (h : Nodes) (xs : Cells) (b : Ptr) → Chain h xs → h b ≡ none → has b xs ≡ false
Chain-none h [] b ch e = refl
Chain-none h ((a, s) ∷ xs) b ch e = elim (Bool-cases (b == a)) [
  | inl same ↦
      let here : h a ≡ none = subst (λ z. h z ≡ none) ((==_iff b a).0 same) e in
      let found : h a ≡ some (node s (start null xs)) = ch.1 in absurd (cc)
  | inr other ↦ rw other (Chain-none h xs b ch.3 e)
]

pub Chain-write :
    (h : Nodes) (p : Ptr) (n : Option Node) (xs : Cells)
    → has p xs ≡ false
    → Chain h xs
    → Chain (write h p n) xs
unfolding write
Chain-write h p n xs out = Chain-frame h (write h p n) xs λ b i. ground arith

pub write_self : (h : Nodes) (p : Ptr) (n : Option Node) → write h p n p ≡ n
unfolding write
write_self h p n = ground arith

pub write_other : (h : Nodes) (p : Ptr) (n : Option Node) (a : Ptr) → a ≢ p → write h p n a ≡ h a
unfolding write
write_other h p n a ne = ground arith

module _ (m : Monitor) (p : Ptr) (s : FilePath) (q : Ptr) where
  pub load_lem : p ≢ null → m.nodes p ≡ some (node s q) → load p m ≡ done (node s q) m
  unfolding load
  load_lem ne e = let got : (p == null) ≡ false = ground arith in rw (got, e)

  pub set_next_lem :
      (r : Ptr)
      → p ≢ null
      → m.nodes p ≡ some (node s q)
      → set_next p r m ≡ done tt (record m { nodes = write m.nodes p (some (node s r)) })
  unfolding set_next store
  set_next_lem r ne e = rw (load_lem ne e)
