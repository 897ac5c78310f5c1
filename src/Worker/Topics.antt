-- ===== src/Worker/Topics.antt =====
-- The topics of the business types, gateway/internal/utils/kafka/topic_manager.go.
use long_gw.Base.{
  ◌≡◌, ◌↔◌, ◌⊎◌, refl, sym, ◌∙◌, subst, List, [], ◌∷◌, Bool, true, false, Option, none, some, Str,
  str_eq, str_eq_refl, str_eq_iff, Bool-cases, inl, inr, if◌then◌else◌, arith,
}
use long_gw.Base.Dict.{Dict, lookup, insert, Elem, Unique, lookup-insert, lookup-nil}

-- `config.TopicPair`
pub record TopicPair : Type 0 where
  pub upstream_topic : Str
  pub downstream_topic : Str

-- `NewTopicManager`: the configured map is copied entry by entry.
unfoldable pub copy_topics : Dict TopicPair → Dict TopicPair → Dict TopicPair
copy_topics [] m = m
copy_topics ((k, pair) ∷ cfg) m = copy_topics cfg (insert k pair m)

unfoldable pub new_topic_manager : Dict TopicPair → Dict TopicPair
unfolding copy_topics
new_topic_manager cfg = copy_topics cfg []

unfoldable pub get_topic_config : Str → Dict TopicPair → Option TopicPair
get_topic_config key m = lookup key m

unfoldable pub get_upstream_topic : Str → Dict TopicPair → Str
get_upstream_topic key m = elim (lookup key m) [ none ↦ [] | some pair ↦ pair.upstream_topic ]

unfoldable pub get_downstream_topic : Str → Dict TopicPair → Str
get_downstream_topic key m = elim (lookup key m) [ none ↦ [] | some pair ↦ pair.downstream_topic ]

-- `GetAllUpstreamTopics` and `GetAllDownstreamTopics`, in iteration order.
unfoldable pub get_all_upstream_topics : Dict TopicPair → List Str
get_all_upstream_topics [] = []
get_all_upstream_topics ((k, pair) ∷ m) =
    let rest = get_all_upstream_topics m in
    if str_eq pair.upstream_topic [] then rest else pair.upstream_topic ∷ rest

unfoldable pub get_all_downstream_topics : Dict TopicPair → List Str
get_all_downstream_topics [] = []
get_all_downstream_topics ((k, pair) ∷ m) =
    let rest = get_all_downstream_topics m in
    if str_eq pair.downstream_topic [] then rest else pair.downstream_topic ∷ rest

-- `BusinessTypes`
unfoldable pub business_types : Dict TopicPair → List Str
business_types [] = []
business_types ((k, pair) ∷ m) = k ∷ business_types m

copy_topics-lookup :
    (k : Str) (cfg m : Dict TopicPair)
    → Unique cfg
    → lookup k (copy_topics cfg m) ≡ (elim (lookup k cfg) [ none ↦ lookup k m | some p ↦ some p ])
unfolding copy_topics lookup
copy_topics-lookup k [] m u = refl
copy_topics-lookup k ((j, pair) ∷ cfg) m u = ground (
  arith,
  u.0,
  str_eq_iff j k,
  lookup-insert j k pair m,
  copy_topics-lookup k cfg (insert j pair m) u.1,
)

-- A topic is in the list of those that are not empty.
Elem-skip :
    (b : Bool) (x t : Str) (rest : List Str) → Elem x rest → Elem x (if b then rest else t ∷ rest)
Elem-skip true x t rest h = h
Elem-skip false x t rest h = inr h

Elem-here :
    (b : Bool) (t : Str) (rest : List Str) → b ≡ false → Elem t (if b then rest else t ∷ rest)
Elem-here true t rest h = absurd (cc)
Elem-here false t rest h = inl refl

Elem-cases :
    (b : Bool) (x t : Str) (rest : List Str)
    → Elem x (if b then rest else t ∷ rest)
    → ((b ≡ false) × (x ≡ t)) ⊎ Elem x rest
Elem-cases true x t rest h = inr h
Elem-cases false x t rest (inl e) = inl (refl, e)
Elem-cases false x t rest (inr h) = inr h

get_downstream_topic-cons :
    (k j : Str) (pair : TopicPair) (m : Dict TopicPair)
    → get_downstream_topic k ((j, pair) ∷ m)
      ≡ (if str_eq j k then pair.downstream_topic else get_downstream_topic k m)
unfolding get_downstream_topic lookup
get_downstream_topic-cons k j pair m = ground arith

named-subscribed :
    (k : Str) (m : Dict TopicPair)
    → str_eq (get_downstream_topic k m) [] ≡ false
    → Elem (get_downstream_topic k m) (get_all_downstream_topics m)
unfolding get_all_downstream_topics
named-subscribed k [] h = absurd (unfold get_downstream_topic lookup str_eq in ground (arith, h))
named-subscribed k ((j, pair) ∷ m) h =
    let c = get_downstream_topic-cons k j pair m in
    elim (Bool-cases (str_eq j k)) [
      | inl e ↦
          let q : get_downstream_topic k ((j, pair) ∷ m) ≡ pair.downstream_topic =
            ground (arith, c, e) in
          subst (λ (t : Str). Elem t (get_all_downstream_topics ((j, pair) ∷ m))) (sym q)
            (Elem-here (str_eq pair.downstream_topic []) pair.downstream_topic
              (get_all_downstream_topics m) (ground (arith, h, q)))
      | inr e ↦
          let q : get_downstream_topic k ((j, pair) ∷ m) ≡ get_downstream_topic k m =
            ground (arith, c, e) in
          subst (λ (t : Str). Elem t (get_all_downstream_topics ((j, pair) ∷ m))) (sym q)
            (Elem-skip _ _ _ _ (named-subscribed k m (ground (arith, h, q))))
    ]

subscribed-named :
    (topic : Str) (m : Dict TopicPair)
    → Unique m
    → Elem topic (get_all_downstream_topics m)
    → (k : Str) × (get_downstream_topic k m ≡ topic) × (str_eq topic [] ≡ false)
unfolding get_downstream_topic get_all_downstream_topics lookup
subscribed-named topic [] u h = absurd h
subscribed-named topic ((j, pair) ∷ m) u h =
    found (Elem-cases (str_eq pair.downstream_topic []) topic pair.downstream_topic _ h)
      (subscribed-named topic m u.1)
  where
    found :
        ((str_eq pair.downstream_topic [] ≡ false) × (topic ≡ pair.downstream_topic))
          ⊎ Elem topic (get_all_downstream_topics m)
        → (Elem topic (get_all_downstream_topics m)
            → (k : Str) × (get_downstream_topic k m ≡ topic) × (str_eq topic [] ≡ false))
        → (k : Str) × (get_downstream_topic k ((j, pair) ∷ m) ≡ topic) × (str_eq topic [] ≡ false)
    found (inl (q, e)) ih =
        (j, ground (arith, get_downstream_topic-cons j j pair m, str_eq_refl j, e), rw e q)
    found (inr t) ih =
        let (k, e, q) = ih t in
        let apart : str_eq j k ≡ false =
          ground (arith, u.0, e, q, str_eq_iff j k, str_eq_refl []) in
        (k, ground (arith, e, apart), q)

-- The consumer of a configuration subscribes to a topic exactly where it is the downstream topic of
-- some business type and has a name; what is configured for a business type is what is asked for.
pub get_all_downstream_topics-named :
    (cfg : Dict TopicPair) (topic key : Str)
    → Unique cfg
    → (Elem topic (get_all_downstream_topics cfg)
        ↔ ((k : Str) × (get_downstream_topic k cfg ≡ topic) × (str_eq topic [] ≡ false)))
      × (get_topic_config key (new_topic_manager cfg) ≡ lookup key cfg)
unfolding get_topic_config new_topic_manager
get_all_downstream_topics-named cfg topic key u = (
  (
    subscribed-named topic cfg u,
    λ (k, e, q).
        subst (λ (t : Str). Elem t (get_all_downstream_topics cfg)) e
          (named-subscribed k cfg (rw e q)),
  ),
  copy_topics-lookup key cfg [] u ∙ ground (arith, lookup-nil {V = TopicPair} key),
)
