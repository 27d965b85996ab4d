-- ===== src/Trace/Component.antt =====
-- `Component` of skywalking/__init__.py. Members are compared by their numbers.
use skywalking_python.Prelude.{
  ℕ, ◌≡◌, refl, Bool, true, Option, none, some, ◌==◌, ==_iff, if◌then◌else◌, ap, ◌∙◌, sym, List, [],
  ◌∷◌, ◌↔◌,
}

pub data Component : Type 0 where
  unknown general flask requests py_mysql django : Component
  tornado redis mongo_db postgre_sql kafka_producer kafka_consumer : Component
  rabbitmq_producer rabbitmq_consumer pulsar_producer pulsar_consumer elasticsearch h_base :
      Component
  neo4j urllib3 sanic aio_http pyramid psycopg : Component
  celery falcon mysql_client fast_api bottle async_pg : Component
  aio_redis websockets httpx grpc : Component

-- `component.value`, the number that goes to the backend.
pub value : Component → ℕ
value unknown = 0
value general = 7000
value flask = 7001
value requests = 7002
value py_mysql = 7003
value django = 7004
value tornado = 7005
value redis = 7
value mongo_db = 9
value postgre_sql = 22
value kafka_producer = 40
value kafka_consumer = 41
value rabbitmq_producer = 52
value rabbitmq_consumer = 53
value pulsar_producer = 73
value pulsar_consumer = 74
value elasticsearch = 47
value h_base = 94
value neo4j = 112
value urllib3 = 7006
value sanic = 7007
value aio_http = 7008
value pyramid = 7009
value psycopg = 7010
value celery = 7011
value falcon = 7012
value mysql_client = 7013
value fast_api = 7014
value bottle = 7015
value async_pg = 7016
value aio_redis = 7017
value websockets = 7018
value httpx = 7019
value grpc = 23

abbrev pub same : Component → Component → Bool
same a b = value a == value b

find : ℕ → List Component → Option Component
find n [] = none
find n (c ∷ cs) = if value c == n then some c else find n cs

abbrev all : List Component
all =
    unknown ∷ general ∷ flask ∷ requests ∷ py_mysql ∷ django ∷ tornado ∷ redis ∷ mongo_db
    ∷ postgre_sql ∷ kafka_producer ∷ kafka_consumer ∷ rabbitmq_producer ∷ rabbitmq_consumer
    ∷ pulsar_producer ∷ pulsar_consumer ∷ elasticsearch ∷ h_base ∷ neo4j ∷ urllib3 ∷ sanic
    ∷ aio_http ∷ pyramid ∷ psycopg ∷ celery ∷ falcon ∷ mysql_client ∷ fast_api ∷ bottle ∷ async_pg
    ∷ aio_redis ∷ websockets ∷ httpx ∷ grpc ∷ []

-- The member with a number: `Component(n)`.
pub of_value : ℕ → Option Component
unfolding find
of_value n = find n all

-- No two components share a number: each is found again by its own.
pub of_value-value : (c : Component) → of_value (value c) ≡ some c
unfolding of_value value
of_value-value unknown = refl
of_value-value general = refl
of_value-value flask = refl
of_value-value requests = refl
of_value-value py_mysql = refl
of_value-value django = refl
of_value-value tornado = refl
of_value-value redis = refl
of_value-value mongo_db = refl
of_value-value postgre_sql = refl
of_value-value kafka_producer = refl
of_value-value kafka_consumer = refl
of_value-value rabbitmq_producer = refl
of_value-value rabbitmq_consumer = refl
of_value-value pulsar_producer = refl
of_value-value pulsar_consumer = refl
of_value-value elasticsearch = refl
of_value-value h_base = refl
of_value-value neo4j = refl
of_value-value urllib3 = refl
of_value-value sanic = refl
of_value-value aio_http = refl
of_value-value pyramid = refl
of_value-value psycopg = refl
of_value-value celery = refl
of_value-value falcon = refl
of_value-value mysql_client = refl
of_value-value fast_api = refl
of_value-value bottle = refl
of_value-value async_pg = refl
of_value-value aio_redis = refl
of_value-value websockets = refl
of_value-value httpx = refl
of_value-value grpc = refl

some-injective : {a b : Component} → some a ≡ some b → a ≡ b
some-injective h = cc

pub same_iff : (a b : Component) → (same a b ≡ true) ↔ (a ≡ b)
same_iff a b = (
  λ h.
      some-injective (
        sym (of_value-value a) ∙ ap of_value ((==_iff (value a) (value b)).0 h) ∙ of_value-value b),
  λ e. rw e ((==_iff (value b) (value b)).1 refl),
)
