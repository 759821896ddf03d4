-- ===== src/Container/Singletons.antt =====
-- Every registered type resolves, and each initializer runs once at most.
use git_bundle_server.Base.{
  ℕ, zero, suc, ◌≤◌, ◌<◌, Text, Bool, true, false, List, [], ◌∷◌, some, Option-cases, Bool-cases,
  text_Eq, text_eq, text_eq_iff, text_eq_refl, subst, sym, ◌∙◌, ap, ◌≡◌, ◌⊎◌, inl, inr, refl, arith,
}
use git_bundle_server.Base.Assoc.{has, keys, lookup, Distinct, lookup-has}
use mathlib.Core.Bool.{false≢true}
use git_bundle_server.Container.{
  Container, Resolved, resolved, panicked, waiting, then_each, each, put_singleton,
  wrap_func_for_singleton, get_dependency,
}

-- Each of the types is registered, and of a rank below one.
abbrev Below : (Text → ℕ) → List (Text × List Text) → ℕ → List Text → Type 0
Below rank ini n [] = Unit
Below rank ini n (t ∷ ts) = (has (keys ini) t ≡ true) × (rank t < n) × Below rank ini n ts

-- No circle: what an initializer asks for is registered and has a smaller rank.
abbrev pub IsRanked : (Text → ℕ) → List (Text × List Text) → Type 0
IsRanked rank ini =
    (t : Text) (deps : List Text) → lookup t ini ≡ some deps → Below rank ini (rank t) deps

-- A container that was used: the initializers are the same, no singleton was made twice or lost,
-- and those made are of a rank below `n`.
record Grown (rank : Text → ℕ) (n : ℕ) (c d : Container) : Type 0 where
  same : d.initializers ≡ c.initializers
  distinct : Distinct d.created
  kept : (s : Text) → has c.created s ≡ true → has d.created s ≡ true
  new_below : (s : Text) → has d.created s ≡ true → has c.created s ≡ false → rank s < n

Grown-refl : (rank : Text → ℕ) (n : ℕ) (c : Container) → Distinct c.created → Grown rank n c c
Grown-refl rank n c h = record {
  same = refl;
  distinct = h;
  kept = λ s k. k;
  new_below = λ s k l. cc;
}

Grown-trans :
    (rank : Text → ℕ) (n : ℕ) (c d e : Container)
    → Grown rank n c d
    → Grown rank n d e
    → Grown rank n c e
Grown-trans rank n c d e g h = record {
  same = cc;
  distinct = h.distinct;
  kept = λ s k. h.kept s (g.kept s k);
  new_below = λ s k l. ground (arith, Bool-cases (has d.created s), g.new_below s, h.new_below s k);
}

-- What `GetDependency` gives for a type of rank below `n`.
abbrev Made : (Text → ℕ) → ℕ → Container → Text → Resolved → Type 0
Made rank n c t (resolved d) = Grown rank n c d × (has d.created t ≡ true)
Made rank n c t (panicked p) = ⊥
Made rank n c t waiting = ⊥

-- What a call for several types of rank below `n` gives.
abbrev Served : (Text → ℕ) → ℕ → Container → Resolved → Type 0
Served rank n c (resolved d) = Grown rank n c d
Served rank n c (panicked p) = ⊥
Served rank n c waiting = ⊥

-- A way to get types of rank below `m`, from any container with the initializers.
abbrev Gets : (Text → ℕ) → List (Text × List Text) → ℕ → (Text → Container → Resolved) → Type 0
Gets rank ini m get =
    (c : Container) (t : Text)
    → c.initializers ≡ ini
    → Distinct c.created
    → has (keys ini) t ≡ true
    → rank t < m
    → Made rank (suc (rank t)) c t (get t c)

Grown-up :
    (rank : Text → ℕ) (k n : ℕ) (c d : Container) → k ≤ n → Grown rank k c d → Grown rank n c d
Grown-up rank k n c d h g = record {
  same = g.same;
  distinct = g.distinct;
  kept = g.kept;
  new_below = λ s a b. omega (arith, h, g.new_below s a b);
}

then_each-Served :
    (rank : Text → ℕ) (k n : ℕ) (c : Container) (t : Text) (r : Resolved) (f : Container → Resolved)
    → k ≤ n
    → Made rank k c t r
    → ((d : Container) → Grown rank k c d → Served rank n d (f d))
    → Served rank n c (then_each f r)
then_each-Served rank k n c t (resolved d) f l h later = go (f d) (later d h.0)
  where
    go : (r : Resolved) → Served rank n d r → Served rank n c r
    go (resolved e) g = Grown-trans rank n c d e (Grown-up rank k n c d l h.0) g
    go (panicked p) g = absurd g
    go waiting g = absurd g
then_each-Served rank k n c t (panicked p) f l h later = absurd h
then_each-Served rank k n c t waiting f l h later = absurd h

each-Served :
    (rank : Text → ℕ) (ini : List (Text × List Text)) (m n : ℕ) (get : Text → Container → Resolved)
    (ts : List Text) (c : Container)
    → Gets rank ini m get
    → n ≤ m
    → c.initializers ≡ ini
    → Distinct c.created
    → Below rank ini n ts
    → Served rank n c (each get ts c)
unfolding each
each-Served rank ini m n get [] c gets l e h b = Grown-refl rank n c h
each-Served rank ini m n get (t ∷ ts) c gets l e h (b, less, bs) =
    then_each-Served rank (suc (rank t)) n c t (get t c) (each get ts) (omega (arith, less))
      (gets c t e h b (omega (arith, less, l)))
      (λ d g. each-Served rank ini m n get ts d gets l (cc) g.distinct bs)

-- The singleton that an initializer leaves, which no other has left meanwhile.
put_singleton-Made :
    (rank : Text → ℕ) (c : Container) (t : Text) (r : Resolved)
    → has c.created t ≡ false
    → Served rank (rank t) c r
    → Made rank (suc (rank t)) c t (then_each (put_singleton t) r)
put_singleton-Made rank c t (resolved d) h g = (
  record {
    same = g.same;
    distinct = elim (Bool-cases (has d.created t)) [
      | inl there ↦ absurd (omega (arith, g.new_below t there h))
      | inr absent ↦ (absent, g.distinct)
    ];
    kept = λ s k. ground (arith, g.kept s k);
    new_below = λ s k l. ground (arith, k, l, text_eq_iff t s, g.new_below s);
  },
  ground (arith, text_eq_refl t),
)
put_singleton-Made rank c t (panicked p) h g = g
put_singleton-Made rank c t waiting h g = g

singleton-Made :
    (rank : Text → ℕ) (ini : List (Text × List Text)) (fuel : ℕ) (get : Text → Container → Resolved)
    (deps : List Text) (c : Container) (t : Text)
    → Gets rank ini fuel get
    → rank t ≤ fuel
    → c.initializers ≡ ini
    → Distinct c.created
    → Below rank ini (rank t) deps
    → Made rank (suc (rank t)) c t (wrap_func_for_singleton get t deps c)
unfolding wrap_func_for_singleton
singleton-Made rank ini fuel get deps c t gets l e h b = split (has c.created t) refl
  where
    split :
        (b : Bool)
        → has c.created t ≡ b
        → Made rank (suc (rank t)) c t (wrap_func_for_singleton get t deps c)
    split true q = rw q (Grown-refl rank (suc (rank t)) c h, q)
    split false q = rw q (
        put_singleton-Made rank c t (each get deps c) q
          (each-Served rank ini fuel (rank t) get deps c gets l e h b))

get_dependency-Gets :
    (rank : Text → ℕ) (ini : List (Text × List Text)) (fuel : ℕ)
    → IsRanked rank ini
    → Gets rank ini fuel (get_dependency fuel)
unfolding get_dependency
get_dependency-Gets rank ini zero ranked c t e h b l = absurd (omega (arith, l))
get_dependency-Gets rank ini (suc fuel) ranked c t e h b l =
    elim (Option-cases (lookup t c.initializers)) [
      | inl missing ↦
          absurd (false≢true (sym ((lookup-has t ini).0 (sym (ap (lookup t) e) ∙ missing)) ∙ b))
      | inr (deps, found) ↦ rw found (
          singleton-Made rank ini fuel (get_dependency fuel) deps c t
            (get_dependency-Gets rank ini fuel ranked) (omega (arith, l)) e h
            (ranked t deps (sym (ap (lookup t) e) ∙ found)))
    ]

-- All entries of a list of registrations ask for registered types of smaller rank.
abbrev pub EntriesBelow : (Text → ℕ) → List (Text × List Text) → List (Text × List Text) → Type 0
EntriesBelow rank ini [] = Unit
EntriesBelow rank ini ((t, deps) ∷ more) = Below rank ini (rank t) deps × EntriesBelow rank ini more

lookup-cons :
    (s t : Text) (ds deps : List Text) (more : List (Text × List Text))
    → lookup t ((s, ds) ∷ more) ≡ some deps
    → ((s ≡ t) × (ds ≡ deps)) ⊎ (lookup t more ≡ some deps)
unfolding lookup
lookup-cons s t ds deps more h = split (text_eq s t) refl
  where
    split : (b : Bool) → text_eq s t ≡ b → ((s ≡ t) × (ds ≡ deps)) ⊎ (lookup t more ≡ some deps)
    split true q = inl ((text_eq_iff s t).0 q, ground (arith, q, h))
    split false q = inr (ground (arith, q, h))

entries-IsRanked :
    (rank : Text → ℕ) (ini more : List (Text × List Text)) (t : Text) (deps : List Text)
    → EntriesBelow rank ini more
    → lookup t more ≡ some deps
    → Below rank ini (rank t) deps
unfolding lookup
entries-IsRanked rank ini [] t deps h e = cc
entries-IsRanked rank ini ((s, ds) ∷ more) t deps h e = elim (lookup-cons s t ds deps more e) [
  | inl (same, found) ↦
      subst (λ r. Below rank ini (rank r) deps) same (subst (Below rank ini (rank s)) found h.0)
  | inr later ↦ entries-IsRanked rank ini more t deps h.1 later
]

-- If what each registered initializer asks the container for is registered and of a smaller rank,
-- by some ranking of the types, and no singleton was made twice so far: with more fuel than the
-- rank of a registered type GetDependency for it ends, with neither a panic nor a wait of an
-- initializer for itself; its singleton is there then, those made before still are, none was made
-- twice, and the initializers are the same.
pub get_dependency-resolved :
    (rank : Text → ℕ) (c : Container) (t : Text) (fuel : ℕ)
    → EntriesBelow rank c.initializers c.initializers
    → Distinct c.created
    → has (keys c.initializers) t ≡ true
    → rank t < fuel
    → (d : Container) × (get_dependency fuel t c ≡ resolved d)
      × (has d.created t ≡ true)
      × ((s : Text) → has c.created s ≡ true → has d.created s ≡ true)
      × Distinct d.created
      × (d.initializers ≡ c.initializers)
get_dependency-resolved rank c t fuel ranked h there enough = read (get_dependency fuel t c) refl (
    get_dependency-Gets rank c.initializers fuel
      (λ s deps. entries-IsRanked rank c.initializers c.initializers s deps ranked) c t refl h there
      enough)
  where
    read :
        (r : Resolved)
        → get_dependency fuel t c ≡ r
        → Made rank (suc (rank t)) c t r
        → (d : Container) × (get_dependency fuel t c ≡ resolved d)
          × (has d.created t ≡ true)
          × ((s : Text) → has c.created s ≡ true → has d.created s ≡ true)
          × Distinct d.created
          × (d.initializers ≡ c.initializers)
    read (resolved d) e g = (d, e, g.1, g.0.kept, g.0.distinct, g.0.same)
    read (panicked p) e g = absurd g
    read waiting e g = absurd g
