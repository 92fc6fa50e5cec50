-- ===== src/Manager/SignalRouter/Routing/Eligible.antt =====
-- What `is_eligible` asks of an agent.
use mathlib.Core.List.{Memᴰ}
use execution_engine_multi.Prelude.{
  ◌≡◌, ◌≢◌, ◌↔◌, ◌⊎◌, inl, inr, refl, sym, ap, ◌∙◌, subst, eq_iff, String, ◌==◌, true, false, not,
  ◌&&◌, Option, or_default, List, [], ◌∷◌, arith, Bool-cases, or_false, eqb,
}
use execution_engine_multi.Manager.Supervision.{
  AgentStatus, running, provisioned, starting, degraded, stopping, stopped, crash_loop, error,
}
use execution_engine_multi.Manager.SignalRouter.Routing.{
  Registration, Text, RoutedSignal, plain, occurs_in, broker_matches, mentions, is_eligible,
  eligible, is_running,
}
use execution_engine_multi.Manager.SignalRouter.Routing.Matching.{
  IsPart, IsPart-occurs, occurs-IsPart, or_cases, or_true, and_cases, and_true, is_empty_lem,
}
use execution_engine_multi.Manager.SignalRouter.Routing.FanOut.{is_addressed, none-eligible}

is_running-running : (status : AgentStatus) → is_running status ≡ true → status ≡ running
is_running-running running e = refl
is_running-running provisioned e = cc
is_running-running starting e = cc
is_running-running degraded e = cc
is_running-running stopping e = cc
is_running-running stopped e = cc
is_running-running crash_loop e = cc
is_running-running error e = cc

module _ {F : Type 0} (t : Text F) where
  -- The agent runs, has the symbol, and its server is called after the broker if there is one.
  pub record IsFor (s : RoutedSignal) (reg : Registration) : Type 0 where
    pub runs : reg.status ≡ running
    pub has_symbol : (x : String) × Memᴰ x reg.symbols × (t.upper x ≡ s.symbol)
    pub has_broker :
        (s.broker ≡ "")
        ⊎ ((plain (t.lower s.broker) ≢ "")
            × IsPart (plain (t.lower s.broker)) (plain (t.lower (or_default reg.mt5_server ""))))

  mentions-some :
      (symbol : String) (xs : List String)
      → mentions t symbol xs ≡ true
      → (x : String) × Memᴰ x xs × (t.upper x ≡ symbol)
  unfolding mentions
  mentions-some symbol [] h = cc
  mentions-some symbol (x ∷ xs) h = elim (or_cases (t.upper x == symbol) _ h) [
    | inl here ↦ (x, Memᴰ.head refl, (eq_iff (t.upper x) symbol).0 here)
    | inr later ↦ let (y, m, e) = mentions-some symbol xs later in (y, Memᴰ.tail m, e)
  ]

  some-mentions :
      (symbol : String) (xs : List String) (x : String)
      → Memᴰ x xs
      → t.upper x ≡ symbol
      → mentions t symbol xs ≡ true
  unfolding mentions
  some-mentions symbol [] x m e = elim m [ ]
  some-mentions symbol (y ∷ ys) x (Memᴰ.head same) e =
      or_true (t.upper y == symbol) _
        (inl ((eq_iff (t.upper y) symbol).1 (ap t.upper (sym same) ∙ e)))
  some-mentions symbol (y ∷ ys) x (Memᴰ.tail m) e =
      or_true (t.upper y == symbol) _ (inr (some-mentions symbol ys x m e))

  broker_matches-IsPart :
      (broker : String) (server : Option String)
      → (broker_matches t broker server ≡ true) ↔ (
          (plain (t.lower broker) ≢ "")
          × IsPart (plain (t.lower broker)) (plain (t.lower (or_default server ""))))
  unfolding broker_matches
  broker_matches-IsPart broker server =
      let name = plain (t.lower broker) in
      let label = plain (t.lower (or_default server "")) in
      (
        λ h.
            let (named, part) = and_cases (not (name == "")) (occurs_in name label) h in
            ((is_empty_lem name).0 named, occurs-IsPart name label part),
        λ h.
            let (before, behind, e) = h.1 in
            and_true (not (name == "")) (occurs_in name label) ((is_empty_lem name).1 h.0)
              (subst (λ x. occurs_in name x ≡ true) e (IsPart-occurs name before behind)),
      )

  is_eligible-IsFor :
      (s : RoutedSignal) (reg : Registration) → (is_eligible t s reg ≡ true) ↔ IsFor s reg
  unfolding is_eligible
  is_eligible-IsFor s reg = (to, from)
    where
      to : is_eligible t s reg ≡ true → IsFor s reg
      to h =
          let (first, broker) =
            and_cases (is_running reg.status && mentions t s.symbol reg.symbols) _ h in
          let (runs, symbol) = and_cases (is_running reg.status) _ first in
          record {
            runs = is_running-running reg.status runs;
            has_symbol = mentions-some s.symbol reg.symbols symbol;
            has_broker = elim (or_cases (s.broker == "") _ broker) [
              | inl none_named ↦ inl ((eq_iff s.broker "").0 none_named)
              | inr matches ↦ inr ((broker_matches-IsPart s.broker reg.mt5_server).0 matches)
            ];
          }

      from : IsFor s reg → is_eligible t s reg ≡ true
      from h =
          and_true (is_running reg.status && mentions t s.symbol reg.symbols) _
            (and_true (is_running reg.status) _ (ap is_running h.runs)
              (some-mentions s.symbol reg.symbols h.has_symbol.0 h.has_symbol.1 h.has_symbol.2))
            (or_true (s.broker == "") _ (elim h.has_broker [
              | inl none_named ↦ inl ((eq_iff s.broker "").1 none_named)
              | inr named ↦ inr ((broker_matches-IsPart s.broker reg.mt5_server).1 named)
            ]))

  -- An agent with this id that the signal is for.
  abbrev pub IsAddressee : RoutedSignal → List Registration → String → Type 0
  IsAddressee s regs agent =
      (reg : Registration) × Memᴰ reg regs × (reg.agent_id ≡ agent) × IsFor s reg

  addressed-some :
      (s : RoutedSignal) (regs : List Registration) (agent : String)
      → is_addressed t s regs agent ≡ true
      → IsAddressee s regs agent
  unfolding is_addressed
  addressed-some s [] agent h = cc
  addressed-some s (reg ∷ regs) agent h =
      elim (or_cases (is_eligible t s reg && (reg.agent_id == agent)) _ h) [
        | inl here ↦
            let (fits, same) = and_cases (is_eligible t s reg) _ here in
            (
              reg,
              Memᴰ.head refl,
              (eq_iff reg.agent_id agent).0 same,
              (is_eligible-IsFor s reg).0 fits,
            )
        | inr later ↦
            let (r, m, same, fits) = addressed-some s regs agent later in
            (r, Memᴰ.tail m, same, fits)
      ]

  some-addressed :
      (s : RoutedSignal) (regs : List Registration) (agent : String) (reg : Registration)
      → Memᴰ reg regs
      → reg.agent_id ≡ agent
      → is_eligible t s reg ≡ true
      → is_addressed t s regs agent ≡ true
  unfolding is_addressed
  some-addressed s [] agent reg m e fits = elim m [ ]
  some-addressed s (r ∷ regs) agent reg (Memᴰ.head same) e fits =
      or_true (is_eligible t s r && (r.agent_id == agent)) _ (
        inl (
          and_true (is_eligible t s r) _ (subst (λ x. is_eligible t s x ≡ true) same fits)
            ((eq_iff r.agent_id agent).1 (ap (λ (x : Registration). x.agent_id) (sym same) ∙ e))))
  some-addressed s (r ∷ regs) agent reg (Memᴰ.tail m) e fits =
      or_true (is_eligible t s r && (r.agent_id == agent)) _
        (inr (some-addressed s regs agent reg m e fits))

  is_addressed-IsAddressee :
      (s : RoutedSignal) (regs : List Registration) (agent : String)
      → (is_addressed t s regs agent ≡ true) ↔ IsAddressee s regs agent
  is_addressed-IsAddressee s regs agent = (
    addressed-some s regs agent,
    λ h. some-addressed s regs agent h.0 h.1 h.2 ((is_eligible-IsFor s h.0).1 h.3),
  )

  none-addressed :
      (s : RoutedSignal) (regs : List Registration)
      → ((agent : String) → is_addressed t s regs agent ≡ false)
      → eqb (eligible t s regs) 0 ≡ true
  unfolding is_addressed
  none-addressed s [] h = refl
  none-addressed s (reg ∷ regs) h =
      let here =
        or_false (is_eligible t s reg && (reg.agent_id == reg.agent_id)) _ (h reg.agent_id) in
      let miss : is_eligible t s reg ≡ false =
        ground (arith, here.0, eq_iff reg.agent_id reg.agent_id) in
      rw miss (
        none-addressed s regs
          (λ agent. (or_false (is_eligible t s reg && (reg.agent_id == agent)) _ (h agent)).1))

  -- The tests that choose the agents: an agent is addressed exactly if it is one that the signal is
  -- for, and the count of the eligible agents is zero exactly if there is none.
  pub record AreChosen (s : RoutedSignal) (regs : List Registration) : Type 0 where
    pub addressed :
        (agent : String) → (is_addressed t s regs agent ≡ true) ↔ IsAddressee s regs agent
    pub nobody :
        (eqb (eligible t s regs) 0 ≡ true) ↔ ((agent : String) → IsAddressee s regs agent → ⊥)

  pub fan_out-AreChosen : (s : RoutedSignal) (regs : List Registration) → AreChosen s regs
  fan_out-AreChosen s regs = record {
    addressed = is_addressed-IsAddressee s regs;
    nobody = (
      λ e agent h.
          let hit = (is_addressed-IsAddressee s regs agent).1 h in
          let miss = none-eligible t s regs agent e in cc,
      λ h. none-addressed s regs (λ agent. elim (Bool-cases (is_addressed t s regs agent)) [
        | inl hit ↦ absurd (h agent ((is_addressed-IsAddressee s regs agent).0 hit))
        | inr miss ↦ miss
      ]),
    );
  }
