-- ===== src/Access/Race/Stale.antt =====
-- The chain that still starts at a head read before the list changed.
-- The decision `d` is right for one of the lists `seen`.
use reference_monitor.Base.{
  Bool-cases, List, [], ap, append-nil, append_assoc, arith, false, inl, inr, length, length-append,
  none, refl, some, subst, sym, true, ℕ, ◌++◌, ◌+◌, ◌<◌, ◌||◌, ◌∙◌, ◌∷◌, ◌≡◌, ◌≢◌, ◌≤◌, ◌⊎◌,
}
use reference_monitor.Access.{finish_check}
use reference_monitor.Access.Cover.{covered, matches}
use reference_monitor.Access.Decision.{finish_check_lem, verdict}
use reference_monitor.Access.Race.Shift.{FreshIn, Shift, Spares, elsewhere, first_gone}
use reference_monitor.Monitor.{FilePath, Monitor, Nodes, Ptr, node, null}
use reference_monitor.Monitor.Chain.{Cells, Chain, Chain-frame, Chain-none, has, paths, start}
use reference_monitor.Run.{Returns}

abbrev pub RightForSome : FilePath → (seen : List Cells) → ℕ → Type 0
RightForSome path [] d = ⊥
RightForSome path (xs ∷ seen) d = (d ≡ verdict (covered path (paths xs))) ⊎ RightForSome path seen d

-- Memory `h` holds the list `xs`, and fewer than `k` nodes from `z` on: those that have been taken
-- out of the list, `gone`, and then the list; or, when the list has been empty meanwhile, only nodes
-- that are not of the list.
pub data Stale (path : FilePath) (z : Ptr) (h : Nodes) (xs : Cells) (seen : List Cells) (k : ℕ)
    : Type 0 where
  connected :
      (gone : Cells)
      → Chain h (gone ++ xs)
      → z ≡ start null (gone ++ xs)
      → (covered path (paths gone) ≡ true → RightForSome path seen 1)
      → length gone + length xs < k
      → Stale path z h xs seen k
  detached :
      (gone : Cells)
      → Chain h gone
      → z ≡ start null gone
      → ((a : Ptr) → has a gone ≡ true → has a xs ≡ false)
      → RightForSome path seen (verdict (covered path (paths gone)))
      → length gone < k
      → Stale path z h xs seen k

start-append :
    (gone xs ys : Cells)
    → start null ys ≡ start null xs
    → start null (gone ++ ys) ≡ start null (gone ++ xs)
start-append [] xs ys e = e
start-append ((a, s) ∷ gone) xs ys e = refl

has-append : (a : Ptr) (xs ys : Cells) → has a (xs ++ ys) ≡ (has a xs || has a ys)
has-append a [] ys = refl
has-append a ((b, s) ∷ xs) ys = ground (arith, has-append a xs ys)

not-unused : (h : Nodes) (xs : Cells) (a : Ptr) → Chain h xs → has a xs ≡ true → h a ≢ none
not-unused h xs a ch i e = let out = Chain-none h xs a ch e in absurd (cc)

module _ (h g : Nodes) (xs ys : Cells) (spared : Spares h xs g) (unused : FreshIn h xs ys) where
  still-not :
      (gone : Cells)
      → Chain h gone
      → ((a : Ptr) → has a gone ≡ true → has a xs ≡ false)
      → (a : Ptr) → has a gone ≡ true
      → has a ys ≡ false
  still-not gone ch apart a i = elim (Bool-cases (has a ys)) [
    | inl new ↦ absurd (not-unused h gone a ch i (unused a new (apart a i)))
    | inr old ↦ old
  ]

  -- Nodes outside the list are as before.
  Chain-apart :
      (gone : Cells)
      → Chain h gone
      → ((a : Ptr) → has a gone ≡ true → has a xs ≡ false)
      → Chain g gone
  Chain-apart gone ch apart =
      Chain-frame h g gone (λ a i. spared a (apart a i) (not-unused h gone a ch i)) ch

  -- Removed nodes in front of the list still lead into it.
  Chain-splice :
      (gone : Cells)
      → Chain h (gone ++ xs)
      → Chain g ys
      → start null ys ≡ start null xs
      → Chain g (gone ++ ys)
  Chain-splice [] ch ch' first = ch'
  Chain-splice ((a, s) ∷ gone) ch ch' first =
      let out : has a xs ≡ false = ground (arith, has-append a gone xs, ch.2) in
      let lies : h a ≢ none = λ e. let found = ch.1 in absurd (cc) in
      let fresh_out : has a ys ≡ false = elim (Bool-cases (has a ys)) [
        | inl new ↦ absurd (lies (unused a new out))
        | inr old ↦ old
      ] in
      (
        ch.0,
        spared a out lies ∙ ch.1 ∙ ap (λ p. some (node s p)) (sym (start-append gone xs ys first)),
        ground (arith, has-append a gone xs, has-append a gone ys, ch.2),
        Chain-splice gone ch.3 ch' first,
      )

covered-join :
    (path : FilePath) (xs ys : Cells)
    → covered path (paths (xs ++ ys)) ≡ (covered path (paths xs) || covered path (paths ys))
unfolding covered
covered-join path [] ys = refl
covered-join path ((a, s) ∷ xs) ys = ground (arith, covered-join path xs ys)

covered_one :
    (path : FilePath) (c : Ptr) (t : FilePath) → covered path (paths ((c, t) ∷ [])) ≡ matches path t
unfolding covered
covered_one path c t = ground arith

covered_empty : (path : FilePath) (xs : Cells) → xs ≡ [] → covered path (paths xs) ≡ false
unfolding covered
covered_empty path xs e = subst (λ us. covered path (paths us) ≡ false) (sym e) refl

covered_first :
    (path : FilePath) (xs : Cells) (c : Ptr) (t : FilePath) (rest : Cells)
    → xs ≡ (c, t) ∷ rest
    → matches path t ≡ true
    → covered path (paths xs) ≡ true
unfolding covered
covered_first path xs c t rest e hit = subst (λ us. covered path (paths us) ≡ true) (sym e) (rw hit)

module _ (path : FilePath) (z : Ptr) (h g : Nodes) (xs ys : Cells) (before : List Cells)
    (k : ℕ) where
  -- The first node goes from the list to those that are gone.
  Stale-first :
      (c : Ptr) (t : FilePath)
      → Stale path z h xs (xs ∷ before) k
      → xs ≡ (c, t) ∷ ys
      → Stale path z h ys (ys ∷ xs ∷ before) (k + 1)
  Stale-first c t (connected gone ch e right lt) first =
      let same : gone ++ xs ≡ (gone ++ (c, t) ∷ []) ++ ys =
        ap (λ us. gone ++ us) first ∙ sym (append_assoc gone ((c, t) ∷ []) ys) in
      connected (gone ++ (c, t) ∷ []) (subst (Chain h) same ch) (e ∙ ap (start null) same)
        (λ i. elim (Bool-cases (covered path (paths gone))) [
          | inl old ↦ inr (right old)
          | inr new ↦
              let hit : matches path t ≡ true =
                ground (arith, covered-join path gone ((c, t) ∷ []), covered_one path c t) in
              inr (inl (sym (ap verdict (covered_first path xs c t ys first hit))))
        ])
        (omega (arith, length-append gone ((c, t) ∷ []), ap length first))
  Stale-first c t (detached gone ch e apart right lt) first =
      detached gone ch e
        (λ a i. let out = subst (λ us. has a us ≡ false) first (apart a i) in ground arith)
        (inr right) (omega arith)

  Stale-elsewhere :
      Stale path z h xs (xs ∷ before) k
      → Spares h xs g
      → FreshIn h xs ys
      → Chain g ys
      → length ys ≤ length xs + 1
      → (start null ys ≡ start null xs) ⊎ (xs ≡ [])
      → Stale path z g ys (ys ∷ xs ∷ before) (k + 1)
  Stale-elsewhere (connected gone ch e right lt) spared unused ch' short (inl first) =
      connected gone (Chain-splice h g xs ys spared unused gone ch ch' first)
        (e ∙ sym (start-append gone xs ys first)) (λ i. inr (right i)) (omega arith)
  Stale-elsewhere (connected gone ch e right lt) spared unused ch' short (inr empty) =
      let alone : gone ++ xs ≡ gone = ap (λ us. gone ++ us) empty ∙ append-nil gone in
      let none_of : (a : Ptr) → has a gone ≡ true → has a xs ≡ false =
        λ a i. subst (λ us. has a us ≡ false) (sym empty) refl in
      let old : Chain h gone = subst (Chain h) alone ch in
      detached gone (Chain-apart h g xs ys spared unused gone old none_of)
        (e ∙ ap (start null) alone) (still-not h g xs ys spared unused gone old none_of)
        (elim (Bool-cases (covered path (paths gone))) [
          | inl hit ↦ rw hit (inr (right hit))
          | inr miss ↦ rw miss (inr (inl (sym (ap verdict (covered_empty path xs empty)))))
        ])
        (omega arith)
  Stale-elsewhere (detached gone ch e apart right lt) spared unused ch' short first =
      detached gone (Chain-apart h g xs ys spared unused gone ch apart) e
        (still-not h g xs ys spared unused gone ch apart) (inr right) (omega arith)

  pub Stale-Shift :
      Stale path z h xs (xs ∷ before) k
      → Chain g ys
      → length ys ≤ length xs + 1
      → Shift h xs g ys
      → Stale path z g ys (ys ∷ xs ∷ before) (k + 1)
  Stale-Shift st ch short (first_gone c t first same) =
      subst (λ u. Stale path z u ys (ys ∷ xs ∷ before) (k + 1)) (sym same)
        (Stale-first c t st first)
  Stale-Shift st ch short (elsewhere spared unused first) =
      Stale-elsewhere st spared unused ch short first

-- A decision by the nodes from `z` on is right for a list that was seen.
module _ (fuel : ℕ) (path : FilePath) (n : Monitor) (xs : Cells) (before : List Cells) where
  decided :
      (zs : Cells)
      → Chain n.nodes zs
      → n.locked ≡ false
      → length zs < fuel
      → RightForSome path (xs ∷ before) (verdict (covered path (paths zs)))
      → Returns
          (λ d n'. RightForSome path (xs ∷ before) d × (n' ≡ n))
          (finish_check fuel (some path) (some (start null zs)) n)
  decided zs ch un lt right =
      rw (finish_check_lem fuel path zs n ch un lt)
        (right, ap (λ l. record n { locked = l }) (sym un))

  pub Stale-decided :
      (z : Ptr) (k : ℕ)
      → Stale path z n.nodes xs (xs ∷ before) k
      → k ≤ fuel
      → n.locked ≡ false
      → Returns
          (λ d n'. RightForSome path (xs ∷ before) d × (n' ≡ n))
          (finish_check fuel (some path) (some z) n)
  Stale-decided z k (connected gone ch e right lt) enough un = rw e (
      decided (gone ++ xs) ch un (omega (arith, length-append gone xs, lt))
        (elim (Bool-cases (covered path (paths gone))) [
          | inl old ↦
              let hit : covered path (paths (gone ++ xs)) ≡ true =
                ground (arith, covered-join path gone xs) in
              rw hit (right old)
          | inr new ↦ inl (ap verdict (ground (arith, covered-join path gone xs)))
        ]))
  Stale-decided z k (detached gone ch e apart right lt) enough un =
      rw e (decided gone ch un (omega arith) right)
