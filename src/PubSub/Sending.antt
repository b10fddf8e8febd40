-- ===== src/PubSub/Sending.antt =====
-- What the publishing calls put into the channels.
use go_patternx.Base.{
  [], ◌∷◌, Option, List, ◌≡◌, arith, ◌++◌, some, none, ◌∙◌, ap, false, length-append, length, pos,
  word, ◌+◌, refl,
}
use go_patternx.PubSub.System.{PubSub, CallEnd, returned}
use Prim.Native.String.{String}
use go_patternx.PubSub.{TopicPubSub, MessagePubSub, Dict}
use mathlib.Core.List.{append_assoc, append-nil}
use package.text.Mathlib.Text.{◌==◌ as str_eq}
use go_patternx.PubSub.Maps.{find}

abbrev pub messages_of : Option TopicPubSub → List MessagePubSub
messages_of none = []
messages_of (some t) = t.message_queue

abbrev pub queue_of : String → PubSub → List MessagePubSub
queue_of name ps = messages_of (find name ps.publisher.topics)

-- From `ps` to `ps'`, the messages `ms` are put into the channel of a topic at its end, and into no
-- other channel, and are counted; the slots are as they were, and what the system is set to.
pub record Puts (name : String) (ms : List MessagePubSub) (ps ps' : PubSub) : Type 0 where
  pub there : queue_of name ps' ≡ queue_of name ps ++ ms
  pub elsewhere : (j : String) → str_eq name j ≡ false → queue_of j ps' ≡ queue_of j ps
  pub total : word ps'.metrics.total_messages ≡ word (ps.metrics.total_messages + length ms)
  pub by_publisher :
      word ps'.publisher.metrics.messages_published
      ≡ word (ps.publisher.metrics.messages_published + length ms)
  pub slots : ps'.publisher.used ≡ ps.publisher.used
  pub retries : ps'.publisher.max_retries ≡ ps.publisher.max_retries

-- The same but for the channels and the counts.
abbrev Untouched : PubSub → PubSub → Type 0
Untouched ps ps' =
    (ps'.publisher.topics ≡ ps.publisher.topics)
    × (ps'.metrics.total_messages ≡ ps.metrics.total_messages)
    × (ps'.publisher.metrics.messages_published ≡ ps.publisher.metrics.messages_published)
    × (ps'.publisher.used ≡ ps.publisher.used)
    × (ps'.publisher.max_retries ≡ ps.publisher.max_retries)

pub Puts-nothing :
    (name : String) (ms : List MessagePubSub) (ps ps' : PubSub)
    → ms ≡ []
    → ps'.publisher.topics ≡ ps.publisher.topics
    → ps'.metrics.total_messages ≡ ps.metrics.total_messages
    → ps'.publisher.metrics.messages_published ≡ ps.publisher.metrics.messages_published
    → ps'.publisher.used ≡ ps.publisher.used
    → ps'.publisher.max_retries ≡ ps.publisher.max_retries
    → Puts name ms ps ps'
Puts-nothing name ms ps ps' empty topics total by_publisher slots retries = record {
  there = ground (arith, append-nil (queue_of name ps));
  elsewhere = λ j other. ap (λ d. messages_of (find j d)) topics;
  total = ground arith;
  by_publisher = ground arith;
  slots = slots;
  retries = retries;
}

pub Puts-same : (name : String) (ps : PubSub) → Puts name [] ps ps
Puts-same name ps = Puts-nothing name [] ps ps refl refl refl refl refl refl

pub Puts-trans :
    (name : String) (ms ns : List MessagePubSub) (ps ps' ps'' : PubSub)
    → Puts name ms ps ps'
    → Puts name ns ps' ps''
    → Puts name (ms ++ ns) ps ps''
Puts-trans name ms ns ps ps' ps'' a b = record {
  there = b.there ∙ ap (λ q. q ++ ns) a.there ∙ append_assoc (queue_of name ps) ms ns;
  elsewhere = λ j other. b.elsewhere j other ∙ a.elsewhere j other;
  total = ground (arith, a.total, b.total, length-append ms ns);
  by_publisher = ground (arith, a.by_publisher, b.by_publisher, length-append ms ns);
  slots = b.slots ∙ a.slots;
  retries = b.retries ∙ a.retries;
}

-- A message that carries a body and headers, and that has no priority.
pub record Carries (body : String) (headers : Option (Dict String)) (m : MessagePubSub)
    : Type 0 where
  pub same_body : m.body ≡ body
  pub same_headers : m.headers ≡ headers
  pub no_priority : m.priority ≡ pos 0

-- What is put where the call returns nil.
abbrev pub if_nil : CallEnd → List MessagePubSub → List MessagePubSub
if_nil (returned none) ms = ms
if_nil _ ms = []

-- There is a message with the body and the headers, without a priority, that a call puts into the
-- channel where it returns nil, and nothing is put there otherwise.
abbrev pub Publishes : String → String → Option (Dict String) → PubSub → PubSub × CallEnd → Type 0
Publishes name body headers ps (ps', e) =
    (m : MessagePubSub) × Carries body headers m × Puts name (if_nil e (m ∷ [])) ps ps'
