-- ===== src/Camera/Pending/Routed.antt =====
-- Every call gets its own response: the invariant of the table and the objects.
pub mod Interleaved
use ino_a9_local_bridge.Base.{
  ℕ, ◌+◌, ◌<◌, ◌≡◌, ◌≢◌, refl, sym, ap, subst, ◌∙◌, [], ◌∷◌, Option, none, some, true, false, ◌⊎◌,
  arith, inl, inr,
}
use ino_a9_local_bridge.Base.Tests.{◌==◌, ==_iff, if◌then◌else◌, Bool-cases, Option-cases}
use ino_a9_local_bridge.Base.Dict.{
  Dict, Key, lookup, insert, remove, nat_key, pair_key, lookup-insert, lookup-insert_other,
  lookup-remove, lookup-remove_other,
}
use ino_a9_local_bridge.Base.Except.{Exception, ok, err, camera_error, timeout_error}
use ino_a9_local_bridge.Packet.{RpcPacket}
use ino_a9_local_bridge.Camera.Pending.{
  CallKey, PendingCommand, Calls, put_command, pop, changed, on_object,
}

-- Responses stand in the object of the call they answer.
abbrev pub AreAnswers : ℕ → Dict ℕ PendingCommand → Type 0
AreAnswers next objects =
    (object : ℕ) (command : PendingCommand)
    → lookup object objects ≡ some command
    → (object < next)
      × ((packet : RpcPacket)
          → command.response ≡ some packet
          → (packet.command_id, packet.sequence) ≡ command.key)

pub record IsRouted (s : Calls) : Type 0 where
  pub answers : AreAnswers s.next_object s.objects
  pub owned :
      (key : CallKey) (object : ℕ)
      → lookup key s.pending_commands ≡ some object
      → (command : PendingCommand) × (lookup object s.objects ≡ some command) × (command.key ≡ key)

pub some-injective : {A : Type 0} {a b : A} → some a ≡ some b → a ≡ b
some-injective {a = a} {b = b} h = cc

-- A write to one place of a dict, seen from every place.
module _ {K V : Type 0} ⦃key : Key K⦄ (k : K) (v : V) (d : Dict K V) where
  lookup-insert_cases :
      (k' : K) (v' : V)
      → lookup k' (insert k v d) ≡ some v'
      → ((k ≡ k') × (v ≡ v')) ⊎ ((k ≢ k') × (lookup k' d ≡ some v'))
  lookup-insert_cases k' v' e = elim (Bool-cases (key.same k k')) [
    | inl s ↦
        let k≡ = (key.same_iff k k').0 s in
        inl (
          k≡,
          some-injective (sym (lookup-insert k v d) ∙ ap (λ x. lookup x (insert k v d)) k≡ ∙ e),
        )
    | inr s ↦
        let k≢ : k ≢ k' = λ q. true≢false (sym ((key.same_iff k k').1 q) ∙ s) in
        inr (k≢, sym (lookup-insert_other k k' v d k≢) ∙ e)
  ]
    where
      true≢false : true ≢ false
      true≢false q = cc

AreAnswers-insert :
    (next object : ℕ) (command : PendingCommand) (objects : Dict ℕ PendingCommand)
    → object < next
    → ((packet : RpcPacket)
        → command.response ≡ some packet
        → (packet.command_id, packet.sequence) ≡ command.key)
    → AreAnswers next objects
    → AreAnswers next (insert object command objects)
AreAnswers-insert next object command objects below own h o c e =
    elim (lookup-insert_cases object command objects o c e) [
      | inl (o≡, c≡) ↦ (
        subst (λ n. n < next) o≡ below,
        subst
            (λ x.
              (packet : RpcPacket)
              → x.response ≡ some packet
              → (packet.command_id, packet.sequence) ≡ x.key)
            c≡ own,
      )
      | inr (_, old) ↦ h o c old
    ]

-- More objects may be made later.
AreAnswers-later :
    (next : ℕ) (objects : Dict ℕ PendingCommand)
    → AreAnswers next objects
    → AreAnswers (next + 1) objects
AreAnswers-later next objects h o c e = let (below, own) = h o c e in (omega arith, own)

-- An object is there, and its call has the key.
abbrev pub Keyed : ℕ → CallKey → Dict ℕ PendingCommand → Type 0
Keyed object key objects =
    (command : PendingCommand) × (lookup object objects ≡ some command) × (command.key ≡ key)

-- An object is written that keeps its key.
Keyed-insert :
    (objects : Dict ℕ PendingCommand) (object : ℕ) (old new : PendingCommand) (o : ℕ)
    (key : CallKey)
    → lookup object objects ≡ some old
    → new.key ≡ old.key
    → Keyed o key objects
    → Keyed o key (insert object new objects)
Keyed-insert objects object old new o key there same (command, found, own) =
    elim (Bool-cases (object == o)) [
      | inl s ↦
          let o≡ : object ≡ o = (==_iff object o).0 s in
          let old≡ : old ≡ command =
            some-injective (sym there ∙ ap (λ x. lookup x objects) o≡ ∙ found) in
          (
            new,
            ap (λ x. lookup x (insert object new objects)) (sym o≡)
                ∙ lookup-insert object new objects,
            same ∙ ap (λ x. x.key) old≡ ∙ own,
          )
      | inr s ↦
          let o≢ : object ≢ o = λ q. different (sym ((==_iff object o).1 q) ∙ s) in
          (command, lookup-insert_other object o new objects o≢ ∙ found, own)
    ]
  where
    different : true ≡ false → ⊥
    different q = cc

-- A new object stands behind all others.
pub Keyed-new :
    (next : ℕ) (objects : Dict ℕ PendingCommand) (new : PendingCommand) (o : ℕ) (key : CallKey)
    → AreAnswers next objects
    → Keyed o key objects
    → Keyed o key (insert next new objects)
Keyed-new next objects new o key h (command, found, own) =
    let below = (h o command found).0 in
    (command, lookup-insert_other next o new objects (λ q. omega (arith, q, below)) ∙ found, own)

-- A write that keeps the keys, and whose responses answer the calls.
module _ (f : PendingCommand → PendingCommand) (same : (c : PendingCommand) → (f c).key ≡ c.key)
    (object : ℕ) (s : Calls) where
  pub on_object-Keyed :
      (o : ℕ) (key : CallKey) → Keyed o key s.objects → Keyed o key (on_object f object s).objects
  on_object-Keyed o key h = elim (Option-cases (lookup object s.objects)) [
    | inl n ↦ subst (Keyed o key) (ap (λ x. changed f x object s.objects) (sym n)) h
    | inr (command, found) ↦
        subst (Keyed o key) (ap (λ x. changed f x object s.objects) (sym found))
          (Keyed-insert s.objects object command (f command) o key found (same command) h)
  ]

  pub on_object-IsRouted :
      ((command : PendingCommand)
        → lookup object s.objects ≡ some command
        → (packet : RpcPacket) → (f command).response ≡ some packet
        → (packet.command_id, packet.sequence) ≡ (f command).key)
      → IsRouted s
      → IsRouted (on_object f object s)
  on_object-IsRouted own h = record {
    answers = written (lookup object s.objects) refl;
    owned = λ key o e. on_object-Keyed o key (h.owned key o e);
  }
    where
      written :
          (found : Option PendingCommand)
          → lookup object s.objects ≡ found
          → AreAnswers s.next_object (changed f found object s.objects)
      written none e = h.answers
      written (some command) e =
          AreAnswers-insert s.next_object object (f command) s.objects
            (h.answers object command e).0 (own command e) h.answers

pub put_command-IsRouted :
    (command_id sequence : ℕ) (s : Calls)
    → IsRouted s
    → IsRouted (put_command command_id sequence s)
unfolding put_command
put_command-IsRouted command_id sequence s h =
    let key : CallKey = (command_id, sequence) in
    let new : PendingCommand = record {
      key = key;
      is_set = false;
      response = none;
      error = none;
    } in
    record {
      answers =
          AreAnswers-insert (s.next_object + 1) s.next_object new s.objects (omega arith)
            (λ packet e. absurd (nothing packet e))
            (AreAnswers-later s.next_object s.objects h.answers);
      owned = λ key' o e. elim (lookup-insert_cases key s.next_object s.pending_commands key' o e) [
        | inl (key≡, o≡) ↦ (
          new,
          ap (λ x. lookup x (insert s.next_object new s.objects)) (sym o≡)
              ∙ lookup-insert s.next_object new s.objects,
          key≡,
        )
        | inr (_, old) ↦ Keyed-new s.next_object s.objects new o key' h.answers (h.owned key' o old)
      ];
    }
  where
    nothing : (packet : RpcPacket) → none ≡ some packet → ⊥
    nothing packet e = cc

pub pop-IsRouted : (key : CallKey) (s : Calls) → IsRouted s → IsRouted (pop key s)
unfolding pop
pop-IsRouted key s h = record {
  answers = h.answers;
  owned = λ key' o e. elim (Bool-cases (pair_key.same key key')) [
    | inl q ↦
        let key≡ = (pair_key.same_iff key key').0 q in
        absurd (
          nothing o (
            sym (lookup-remove key s.pending_commands)
            ∙ ap (λ x. lookup x (remove key s.pending_commands)) key≡
            ∙ e))
    | inr q ↦
        let key≢ : key ≢ key' = λ p. different (sym ((pair_key.same_iff key key').1 p) ∙ q) in
        h.owned key' o (sym (lookup-remove_other key key' s.pending_commands key≢) ∙ e)
  ];
}
  where
    nothing : (o : ℕ) → none ≡ some o → ⊥
    nothing o e = cc

    different : true ≡ false → ⊥
    different q = cc
