-- ===== src/Listener/Dispatch/Rebuilding.antt =====
-- After a change of deltas the next execution builds the states first.
use enigma_core.Prelude.{
  ℕ, ◌≡◌, refl, sym, ap, ◌∙◌, subst, true, false, if◌then◌else◌, List, Outcome, ok, err, panic,
}
use enigma_core.Exec.{lift, check, pure, ◌>>=◌, >>=-eq-ok}
use enigma_core.Database.{Rocks}
use enigma_core.Listener as Listener
use enigma_core.Listener.{
  IpcRequest, IpcResponse, IpcTask, ListenerError, Worker, Handler, update_state_status,
}
use enigma_core.Listener.Enclave as Enclave
use enigma_core.Listener.Enclave.{Ecalls, Answer, ptt_build_state, succeeded, addresses_in}
use enigma_core.Listener.Updates as Updates
use enigma_core.Listener.Tasks.{ListenerCrates, compute_task, build_if_needed}
use enigma_core.Listener.Dispatch.{handle}

-- The requests that add or remove deltas.
pub data IsChange : IpcRequest → Type 0 where
  deploys :
      (address bytecode : _) (d : _)
      → IsChange (Listener.update_new_contract_on_deployment address bytecode d)
  updates : (deltas : _) → IsChange (Listener.update_deltas deltas)
  removes : (input : _) → IsChange (Listener.remove_deltas input)

module _ {S D : Type 0} where
  -- A handler that leaves the flag down when it succeeds.
  record LowersFlag {A : Type 0} (action : Handler S D A) : Type 0 where
    after : (st st' : Worker S D) (a : A) → action st ≡ (ok a, st') → st'.state_updated ≡ false

  lowering-LowersFlag :
      {A : Type 0} (a : A) → LowersFlag (update_state_status false >>= λ (u : Unit {0}). pure a)
  unfolding ◌>>=◌ pure
  lowering-LowersFlag a = record { after = λ st st' x h. ap (λ p. p.1.state_updated) (sym h) }

  next-LowersFlag :
      {A B : Type 0} (action : Handler S D A) (next : A → Handler S D B)
      → ((a : A) → LowersFlag (next a))
      → LowersFlag (action >>= next)
  next-LowersFlag action next lowers = record {
    after = λ st st' b h.
        let (a, st₁, _, h₁) = >>=-eq-ok action next st st' b h in (lowers a).after st₁ st' b h₁;
  }

ruleset lowers_rules = (lowering-LowersFlag, next-LowersFlag)

parted :
    (o : Outcome ListenerError (List ℕ)) (res : List (List ℕ))
    → addresses_in o ≡ ok res
    → (part : List ℕ) × (o ≡ ok part)
parted (ok part) res h = (part, refl)
parted (err x) res h = cc h
parted panic res h = cc h

module _ {S D : Type 0} (c : ListenerCrates) (r : Rocks D) (e : Ecalls S D) where
  change-LowersFlag : (request : IpcRequest) → IsChange request → LowersFlag (handle c r e request)
  unfolding handle Updates.update_new_contract_on_deployment Updates.update_deltas
      Updates.remove_deltas
  change-LowersFlag request (deploys address bytecode d) = search (lowers_rules)
  change-LowersFlag request (updates deltas) = search (lowers_rules)
  change-LowersFlag request (removes input) = search (lowers_rules)

  -- The states of the enclave were built from the database, and the task ran on what that left.
  pub record IsRebuilt (gas_limit : ℕ) (st st' : Worker S D) : Type 0 where
    pub answer : Answer (List ℕ)
    pub between : S × D
    pub builds : e.ecall_build_state (st.enclave, st.database) ≡ (answer, between)
    pub part : List ℕ
    pub succeeds : succeeded answer ≡ ok part
    pub bytecode : List ℕ
    pub callable : List ℕ
    pub args : List ℕ
    pub user_pubkey : List ℕ
    pub address : List ℕ
    pub runs :
        (e.ecall_execute bytecode callable args user_pubkey address gas_limit between).1
        ≡ (st'.enclave, st'.database)

  -- A successful build.
  record IsBuilt (st st' : Worker S D) : Type 0 where
    answer : Answer (List ℕ)
    part : List ℕ
    builds : e.ecall_build_state (st.enclave, st.database) ≡ (answer, (st'.enclave, st'.database))
    succeeds : succeeded answer ≡ ok part

  ptt_build_state-IsBuilt :
      (st st' : Worker S D) (res : List (List ℕ))
      → ptt_build_state e st ≡ (ok res, st')
      → IsBuilt st st'
  unfolding ptt_build_state
  ptt_build_state-IsBuilt st st' res h =
      let x = e.ecall_build_state (st.enclave, st.database) in
      let (part, ok_part) = parted (succeeded x.0) res (ap (λ p. p.0) h) in
      record {
        answer = x.0;
        part = part;
        builds =
            ap
              (λ (p : Outcome ListenerError (List (List ℕ)) × Worker S D).
                (x.0, (p.1.enclave, p.1.database)))
              h;
        succeeds = ok_part;
      }

  build_if_needed-IsBuilt :
      (st st' : Worker S D)
      → st.state_updated ≡ false
      → build_if_needed c r e st ≡ (ok tt, st')
      → IsBuilt st st'
  unfolding build_if_needed
  build_if_needed-IsBuilt st st' low h =
      let k : ((ptt_build_state e >>= λ _. update_state_status true) st) ≡ (ok tt, st') =
        ap
          (λ b. if b then (ok tt, st) else (ptt_build_state e >>= λ _. update_state_status true) st)
          (sym low)
        ∙ h in
      let (res, st₁, made, h₁) =
        >>=-eq-ok (ptt_build_state e) (λ _. update_state_status true) st st' tt k in
      let b = ptt_build_state-IsBuilt st st₁ res made in
      record {
        answer = b.answer;
        part = b.part;
        builds =
            b.builds
            ∙ ap
                (λ (p : Outcome ListenerError (Unit {0}) × Worker S D).
                  (b.answer, (p.1.enclave, p.1.database)))
                h₁;
        succeeds = b.succeeds;
      }

  -- After a request that added or removed deltas succeeded, an execution that succeeds ran on an
  -- enclave and a database that a build of the states left, and that build succeeded from what the
  -- change left.
  pub change-rebuilds :
      (request : IpcRequest) (input : IpcTask) (response response' : IpcResponse)
      (st st₁ st₂ : Worker S D)
      → IsChange request
      → handle c r e request st ≡ (ok response, st₁)
      → handle c r e (Listener.compute_task input) st₁ ≡ (ok response', st₂)
      → IsRebuilt input.gas_limit st₁ st₂
  unfolding handle compute_task Enclave.execute lift check
  change-rebuilds request input response response' st st₁ st₂ is h k =
      let (i, t₁, read, k₁) = >>=-eq-ok _ _ st₁ st₂ response' k in
      let (u, t₂, built, k₂) = >>=-eq-ok _ _ t₁ st₂ response' k₁ in
      let (code, t₃, got, k₃) = >>=-eq-ok _ _ t₂ st₂ response' k₂ in
      let (w, t₄, ran, k₄) = >>=-eq-ok _ _ t₃ st₂ response' k₃ in
      let stay : t₁ ≡ st₁ = ap (λ p. p.1) (sym read) in
      let b =
        build_if_needed-IsBuilt st₁ t₂ ((change-LowersFlag request is).after st st₁ response h)
          (subst (λ t. build_if_needed c r e t ≡ (ok tt, t₂)) stay built) in
      record {
        answer = b.answer;
        between = (t₂.enclave, t₂.database);
        builds = b.builds;
        part = b.part;
        succeeds = b.succeeds;
        bytecode = code;
        callable = i.1.1.0;
        args = i.0;
        user_pubkey = i.1.1.1;
        address = i.1.0;
        runs =
            ap
              (λ (t : Worker S D).
                (e.ecall_execute code i.1.1.0 i.0 i.1.1.1 i.1.0 input.gas_limit
                  (t.enclave, t.database)).1)
              (ap (λ p. p.1) got)
            ∙ ap
                (λ (p : Outcome ListenerError Enclave.WasmResult × Worker S D).
                  (p.1.enclave, p.1.database))
                ran
            ∙ ap
                (λ (p : Outcome ListenerError IpcResponse × Worker S D).
                  (p.1.enclave, p.1.database))
                k₄;
      }
