-- ===== src/Node/Structure/Conversation.antt =====
-- The channels of a conversation.
use ko_ls.Base.{
  Option, none, List, [], ◌∷◌, ◌≡◌, ◌∙◌, refl, inl, inr, arith, Bool-cases, Option-cases,
}
use ko_ls.Base.Order.{Bytes, bytes_ord}
use ko_ls.Base.Result.{err, Result-cases}
use ko_ls.Platform.{Platform, Governance}
use ko_ls.Core.Record.{CategoryId}
use ko_ls.Core.Policy.{NetworkProfile, profile}
use ko_ls.Core.Channel.Admission.{ChannelRefusal, read}
use ko_ls.Core.Channel.Admission.Published.{read-server}
use ko_ls.Node.Structure.{
  ChannelMap, CategoryMap, Folded, fold_channel, fold_category, fold_chain, known_category, is_chat,
  seeded, channels, categories,
}

module _ (p : Platform) (g : Governance) where
  conversation_refuses :
      (body : g.EntryBody) (known : Option CategoryId)
      → (why : ChannelRefusal p g) × (read p g body NetworkProfile.conversation known ≡ err why)
  conversation_refuses body known =
      elim (Result-cases (read p g body NetworkProfile.conversation known)) [
        | inl refused ↦ refused
        | inr (e, good) ↦
            let server = read-server p g body NetworkProfile.conversation known e good in
            absurd (ground arith)
      ]

  fold_channel-conversation :
      (f : Folded p g ChannelMap) (body : g.EntryBody)
      → (fold_channel p g NetworkProfile.conversation f body).found ≡ f.found
  unfolding fold_channel
  fold_channel-conversation f body =
      let (why, e) = conversation_refuses body (known_category p g body f.found) in
      elim (Bool-cases (is_chat p g body)) [
        | inl ours ↦ rw (ours, e) refl
        | inr foreign ↦ rw (foreign) refl
      ]

  fold_category-conversation :
      (f : Folded p g CategoryMap) (body : g.EntryBody)
      → (fold_category p g NetworkProfile.conversation f body).found ≡ f.found
  unfolding fold_category
  fold_category-conversation f body =
      let (why, e) = conversation_refuses body none in
      elim (Bool-cases (is_chat p g body)) [
        | inl ours ↦ rw (ours, e) refl
        | inr foreign ↦ rw (foreign) refl
      ]

  -- A loop whose rounds change nothing of what was found.
  fold_chain-found :
      {A : Type 0} (step : Folded p g A → g.EntryBody → Folded p g A)
      → ((f : Folded p g A) (body : g.EntryBody) → (step f body).found ≡ f.found)
      → (log : g.Log) (hs : List Bytes) (f : Folded p g A)
      → (fold_chain p g step log hs f).found ≡ f.found
  unfolding fold_chain
  fold_chain-found step keeps log [] f = refl
  fold_chain-found step keeps log (h ∷ hs) f = elim (Option-cases (g.entry_at log h)) [
    | inl missing ↦ rw (missing, fold_chain) (fold_chain-found step keeps log hs f)
    | inr (e, there) ↦
        rw (there, fold_chain)
          (fold_chain-found step keeps log hs (step f (g.body e)) ∙ keeps f (g.body e))
  ]

  -- Where the profile is that of a conversation, whatever its log holds, its channels are the one that
  -- the network's identifier gives, and there are no categories.
  pub channels-conversation :
      (network : Bytes) (log : g.Log) (state : g.State)
      → profile g (g.policy state) ≡ NetworkProfile.conversation
      → ((channels p g network log state).found ≡ seeded p g network NetworkProfile.conversation)
        × ((categories p g log state).found ≡ [])
  unfolding channels categories
  channels-conversation network log state h = (
    rw h (
        fold_chain-found (fold_channel p g NetworkProfile.conversation) fold_channel-conversation
          log (g.canonical_chain log) _),
    rw h (
        fold_chain-found (fold_category p g NetworkProfile.conversation) fold_category-conversation
          log (g.canonical_chain log) _),
  )
