-- ===== src/Provisioning/Logs.antt =====
-- A provider of src/plane_demo/management/provisioning.py that keeps a log of what it is asked to do,
-- and programs that add given acts to the log.
use radius_todolist_app.Prelude.{String, ◌≡◌, refl, sym, ap, ◌∙◌, List, [], ◌∷◌, ◌++◌}
use mathlib.Core.List.{append-nil, append_assoc}
use radius_todolist_app.Error.{Error, Result, ok, err}
use radius_todolist_app.Provisioning.Effects.{
  Program, World, pure, ask, tell, raise, continue, ◌>>=◌,
}
use radius_todolist_app.Provisioning.{Provider, Cluster, Deployment, ends, observing}

-- What changes infrastructure.
pub data Act : Type 0 where
  ensures : String → Act
  -- the cluster that is ensured
  gives : Cluster → Act
  bootstraps : Cluster → Act
  deploys : String → Act

abbrev pub log_deployment : {P : Type 0} → List Act → Deployment P → Deployment (P × List Act)
log_deployment log (ends r p) = ends r (p, log)
log_deployment log (observing stage p rest) = observing stage (p, log) (log_deployment log rest)

abbrev pub log_call :
    {P A : Type 0} → List Act → (P → Result A × P) → P × List Act → Result A × (P × List Act)
log_call acts f (p, log) = let (r, p') = f p in (r, (p', log ++ acts))

-- What is logged once a cluster is ensured, or not.
abbrev pub given : Result Cluster → List Act
given (ok cluster) = gives cluster ∷ []
given (err e) = []

abbrev pub log_ensure :
    {P : Type 0}
    → String
    → (P → Result Cluster × P)
    → P × List Act
    → Result Cluster × (P × List Act)
log_ensure name f (p, log) = let (r, p') = f p in (r, (p', log ++ ensures name ∷ given r))

-- The provider, with its log.
abbrev pub logging : {P : Type 0} → Provider P → Provider (P × List Act)
logging provider = record {
  prepared_environments = provider.prepared_environments;
  pair_slots = provider.pair_slots;
  expected_cluster_id = λ name. log_call [] (provider.expected_cluster_id name);
  validate_endpoint = λ name url. log_call [] (provider.validate_endpoint name url);
  ensure_child_cluster = λ name. log_ensure name (provider.ensure_child_cluster name);
  bootstrap_child =
      λ cluster. log_call (bootstraps cluster ∷ []) (provider.bootstrap_child cluster);
  deploy_plane =
      λ name s. log_deployment (s.1 ++ deploys name ∷ []) (provider.deploy_plane name s.0);
  inspect_pair = λ pair_id. log_call [] (provider.inspect_pair pair_id);
}

-- A cluster that stands for one that was not ensured.
abbrev pub blank : Cluster
blank = record { slot = ""; cluster_id = ""; context = ""; kubeconfig = "" }

-- A program adds an initial part of `acts` to the log, and all of it unless it raises.
abbrev pub Adds :
    {P S A : Type 0}
    → List Act
    → World (P × List Act) S
    → Result A × World (P × List Act) S
    → Type 0
Adds {A = A} acts w (r, w') =
    (done rest : List Act) × (w'.provider.1 ≡ w.provider.1 ++ done)
    × (done ++ rest ≡ acts)
    × ((a : A) → r ≡ ok a → rest ≡ [])

pub record Logs {P S A : Type 0} (acts : List Act) (m : Program (P × List Act) S A) : Type 0 where
  pub at : (w : World (P × List Act) S) → Adds acts w (m w)

-- The same, of acts that are known once the program has run.
pub record Traces {P S A B : Type 0} (acts : B → List Act) (m : Program (P × List Act) S A)
    : Type 0 where
  pub at : (w : World (P × List Act) S) → (b : B) × Adds (acts b) w (m w)

module _ {P S A B : Type 0} (xs ys : List Act) where
  pub Adds-ok :
      (a : A) (v w : World (P × List Act) S) (r : Result B × World (P × List Act) S)
      → Adds {A = A} xs v (ok a, w)
      → Adds ys w r
      → Adds (xs ++ ys) v r
  Adds-ok a v w r (done, rest, added, all, full) (more, left, added', all', full') =
      let all_xs : done ≡ xs = sym (append-nil done) ∙ rw (full a refl) at all in
      (
        xs ++ more,
        left,
        added'
            ∙ ap (λ (l : List Act). l ++ more)
                (added ∙ ap (λ (l : List Act). v.provider.1 ++ l) all_xs)
            ∙ append_assoc v.provider.1 xs more,
        append_assoc xs more left ∙ ap (λ (l : List Act). xs ++ l) all',
        full',
      )

  pub Adds-err :
      (x : Error) (v w : World (P × List Act) S)
      → Adds {A = A} xs v (err x, w)
      → Adds {A = B} (xs ++ ys) v (err x, w)
  Adds-err x v w (done, rest, added, all, full) = (
    done,
    rest ++ ys,
    added,
    sym (append_assoc done rest ys) ∙ ap (λ (l : List Act). l ++ ys) all,
    λ b h. cc,
  )

module _ {P S A B C : Type 0} where
  pub Traces-continue :
      (c : C) (xs : List Act) (ys : C → List Act) (r : Result A)
      (f : A → Program (P × List Act) S B) (v w : World (P × List Act) S)
      → Adds xs v (r, w)
      → ((a : A) → Traces ys (f a))
      → (c' : C) × Adds (xs ++ ys c') v (continue r f w)
  Traces-continue c xs ys (ok a) f v w h hf =
      let (c', more) = (hf a).at w in (c', Adds-ok xs (ys c') a v w (f a w) h more)
  Traces-continue c xs ys (err x) f v w h hf = (c, Adds-err xs (ys c) x v w h)

  pub Traces-bind :
      (c : C) (xs : List Act) (ys : C → List Act) (m : Program (P × List Act) S A)
      (f : A → Program (P × List Act) S B)
      → Logs xs m
      → ((a : A) → Traces ys (f a))
      → Traces (λ c'. xs ++ ys c') (m >>= f)
  unfolding ◌>>=◌
  Traces-bind c xs ys m f hm hf = record {
    at = λ w. Traces-continue c xs ys (m w).0 f w (m w).1 (hm.at w) hf;
  }

module _ {P S A B : Type 0} where
  pub Logs-continue :
      (xs ys : List Act) (r : Result A) (f : A → Program (P × List Act) S B)
      (v w : World (P × List Act) S)
      → Adds xs v (r, w)
      → ((a : A) → Logs ys (f a))
      → Adds (xs ++ ys) v (continue r f w)
  Logs-continue xs ys (ok a) f v w h hf = Adds-ok xs ys a v w (f a w) h ((hf a).at w)
  Logs-continue xs ys (err x) f v w h hf = Adds-err xs ys x v w h

  pub Logs-bind :
      (xs ys : List Act) (m : Program (P × List Act) S A) (f : A → Program (P × List Act) S B)
      → Logs xs m
      → ((a : A) → Logs ys (f a))
      → Logs (xs ++ ys) (m >>= f)
  unfolding ◌>>=◌
  Logs-bind xs ys m f hm hf = record {
    at = λ w. Logs-continue xs ys (m w).0 f w (m w).1 (hm.at w) hf;
  }

module _ {P S A : Type 0} where
  pub Logs-pure : (a : A) → Logs [] (pure {P = P × List Act} {S = S} a)
  Logs-pure a = record { at = λ w. ([], [], sym (append-nil w.provider.1), refl, λ b h. refl) }

  pub Traces-of_Logs :
      {B : Type 0} {m : Program (P × List Act) S A} (b : B) (acts : B → List Act)
      → Logs (acts b) m
      → Traces acts m
  Traces-of_Logs b acts h = record { at = λ w. (b, h.at w) }

  pub Logs-raise :
      (e : Error) (acts : List Act) → Logs acts (raise {P = P × List Act} {S = S} {A = A} e)
  Logs-raise e acts = record {
    at = λ w. ([], acts, sym (append-nil w.provider.1), refl, λ b h. cc);
  }

  pub Traces-raise :
      {B : Type 0} (b : B) (e : Error) (acts : B → List Act)
      → Traces acts (raise {P = P × List Act} {S = S} {A = A} e)
  Traces-raise b e acts = Traces-of_Logs b acts (Logs-raise e (acts b))

  pub Logs-ask :
      (acts : List Act) (f : P → Result A × P) → Logs acts (ask {S = S} (log_call acts f))
  unfolding ask
  Logs-ask acts f = record { at = λ w. (acts, [], refl, append-nil acts, λ b h. refl) }

  pub Logs-tell : (f : S → Result A × S) → Logs [] (tell {P = P × List Act} f)
  unfolding tell
  Logs-tell f = record { at = λ w. ([], [], sym (append-nil w.provider.1), refl, λ b h. refl) }
