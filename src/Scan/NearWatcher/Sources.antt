-- ===== src/Scan/NearWatcher/Sources.antt =====
-- agents/scan/src/chains/near/watcher.ts, the constructor: under which accounts a watch is listed.
use whm.Prelude.{ℕ, ◌≤◌}
use whm.Prelude.{◌≡◌, refl, sym, ap, ◌⊎◌, inl, inr, arith}
use whm.Prelude.{List, [], ◌∷◌, ◌++◌, map}
use whm.Prelude.{ltb, if◌then◌else◌, if_elim}
use whm.Prelude.{In}
use mathlib.Core.Path.{subst}
use whm.Prelude.Text.{bytes_eq, bytes_eq_iff}
use whm.Scan.NearWatcher.{Text, Watch, or_at, list_under, add_source, sources, least, oldest}

-- The account has a list of watches with this one in it.
abbrev pub Listed : Text → Watch → List (Text × List Watch) → Type 0
Listed a w [] = ⊥
Listed a w ((b, ws) ∷ m) = ((b ≡ a) × In w ws) ⊎ Listed a w m

In-last : (w : Watch) (ws : List Watch) → In w (ws ++ (w ∷ []))
In-last w [] = inl refl
In-last w (v ∷ ws) = inr (In-last w ws)

In-longer : (v w : Watch) (ws : List Watch) → In v ws → In v (ws ++ (w ∷ []))
In-longer v w [] here = elim here [ ]
In-longer v w (u ∷ ws) (inl same) = inl same
In-longer v w (u ∷ ws) (inr later) = inr (In-longer v w ws later)

list_under-Listed :
    (a : Text) (w : Watch) (m : List (Text × List Watch)) → Listed a w (list_under a w m)
unfolding list_under
list_under-Listed a w [] = inl (refl, inl refl)
list_under-Listed a w ((b, ws) ∷ m) =
    if_elim (Listed a w) (bytes_eq b a) ((b, ws ++ (w ∷ [])) ∷ m) ((b, ws) ∷ list_under a w m)
      (λ same. inl ((bytes_eq_iff b a).0 same, In-last w ws))
      (λ other. inr (list_under-Listed a w m))

Listed-list_under :
    (b : Text) (v : Watch) (a : Text) (w : Watch) (m : List (Text × List Watch))
    → Listed b v m
    → Listed b v (list_under a w m)
unfolding list_under
Listed-list_under b v a w [] here = elim here [ ]
Listed-list_under b v a w ((c, ws) ∷ m) here =
    if_elim (Listed b v) (bytes_eq c a) ((c, ws ++ (w ∷ [])) ∷ m) ((c, ws) ∷ list_under a w m)
      (λ same. elim here [
        | inl first ↦ inl (first.0, In-longer v w ws first.1)
        | inr later ↦ inr later
      ])
      (λ other. elim here [
        | inl first ↦ inl first
        | inr later ↦ inr (Listed-list_under b v a w m later)
      ])

Listed-add_source :
    (b : Text) (v w : Watch) (accounts : List Text) (m : List (Text × List Watch))
    → Listed b v m
    → Listed b v (add_source w accounts m)
unfolding add_source
Listed-add_source b v w [] m here = here
Listed-add_source b v w (a ∷ accounts) m here =
    Listed-add_source b v w accounts (list_under a w m) (Listed-list_under b v a w m here)

add_source-Listed :
    (b : Text) (w : Watch) (accounts : List Text) (m : List (Text × List Watch))
    → In b accounts
    → Listed b w (add_source w accounts m)
unfolding add_source
add_source-Listed b w [] m here = elim here [ ]
add_source-Listed b w (a ∷ accounts) m (inl same) =
    Listed-add_source b w w accounts (list_under a w m)
      (subst (λ c. Listed c w (list_under a w m)) (sym same) (list_under-Listed a w m))
add_source-Listed b w (a ∷ accounts) m (inr later) =
    add_source-Listed b w accounts (list_under a w m) later

Listed-sources :
    (b : Text) (v : Watch) (ws : List Watch) (m : List (Text × List Watch))
    → Listed b v m
    → Listed b v (sources ws m)
unfolding sources
Listed-sources b v [] m here = here
Listed-sources b v (w ∷ ws) m here =
    Listed-sources b v ws (add_source w (or_at w.via w.at) m)
      (Listed-add_source b v w (or_at w.via w.at) m here)

pub sources-Listed :
    (b : Text) (v : Watch) (ws : List Watch) (m : List (Text × List Watch))
    → In v ws
    → In b (or_at v.via v.at)
    → Listed b v (sources ws m)
unfolding sources
sources-Listed b v [] m here there = elim here [ ]
sources-Listed b v (w ∷ ws) m (inl same) there =
    Listed-sources b v ws (add_source w (or_at w.via w.at) m) (
      subst (λ u. Listed b u (add_source w (or_at w.via w.at) m)) (sym same)
        (add_source-Listed b w (or_at w.via w.at) m
          (subst (λ (u : Watch). In b (or_at u.via u.at)) same there)))
sources-Listed b v (w ∷ ws) m (inr later) there =
    sources-Listed b v ws (add_source w (or_at w.via w.at) m) later there

least-first : (c : ℕ) (ds : List ℕ) → least c ds ≤ c
unfolding least
least-first c [] = omega arith
least-first c (d ∷ ds) = ground (arith, least-first (if ltb d c then d else c) ds)

least-le :
    (c : ℕ) (cursors : Text → ℕ) (w : Watch) (ws : List Watch)
    → In w ws
    → least c (map (λ (v : Watch). cursors v.id) ws) ≤ cursors w.id
unfolding least
least-le c cursors w [] here = elim here [ ]
least-le c cursors w (v ∷ ws) (inl same) =
    let equal = ap (λ (u : Watch). cursors u.id) same in
    let first =
      least-first (if ltb (cursors v.id) c then cursors v.id else c)
        (map (λ (u : Watch). cursors u.id) ws) in
    ground arith
least-le c cursors w (v ∷ ws) (inr later) =
    least-le (if ltb (cursors v.id) c then cursors v.id else c) cursors w ws later

pub oldest-le :
    (cursors : Text → ℕ) (w : Watch) (ws : List Watch) → In w ws → oldest cursors ws ≤ cursors w.id
unfolding oldest
oldest-le cursors w [] here = elim here [ ]
oldest-le cursors w (v ∷ ws) (inl same) =
    let equal = ap (λ (u : Watch). cursors u.id) same in
    let first = least-first (cursors v.id) (map (λ (u : Watch). cursors u.id) ws) in omega arith
oldest-le cursors w (v ∷ ws) (inr later) = least-le (cursors v.id) cursors w ws later
