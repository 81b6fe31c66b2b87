-- ===== src/Config.antt =====
-- config/: the keys under which the parts of the program meet in the registry, the push
-- configuration and the device types. What the host answers when asked for its name is an argument.
use offlinepush.Base.{ℕ, List, [], ◌∷◌, String, ◌*◌, Option, none, some}
use offlinepush.Base.Result.{Error}
use offlinepush.Base.Int.{ℤ, pos}
use offlinepush.Base.Dict.{Dict}
use offlinepush.Domain.{Topic}

pub record RegisterConfig : Type 0 where
  pub service_name : String
  pub consumer_prefix : String
  pub interceptor_key : String
  pub pod_name : String
  pub manual_task_key : String
  pub read_count_key : String
  pub write_count_key : String

-- Durations are in milliseconds.
pub record LockConfig : Type 0 where
  pub lock_key : String
  pub expiration : ℕ
  pub refresh_interval : ℕ
  pub timeout : ℕ

pub record EtcdConfig : Type 0 where
  pub addr : String

pub record RedisConfig : Type 0 where
  pub addr : String
  pub password : String
  pub consumer_left_task_key : String
  pub producer_left_task_key : String

pub record KafkaConfig : Type 0 where
  pub addr : String

pub record MySqlConfig : Type 0 where
  pub dsn : String

-- The program's `Config`.
pub record StartConfig : Type 0 where
  pub redis : RedisConfig
  pub etcd : EtcdConfig
  pub kafka : KafkaConfig
  pub my_sql : MySqlConfig
  pub register : RegisterConfig
  pub lock : LockConfig

-- `GetPodName`: `none` is the panic when the host's name cannot be read.
unfoldable pub get_pod_name : String × Option Error → Option String
get_pod_name (pod_name, none) = some pod_name
get_pod_name (pod_name, some e) = none

abbrev pub dev_config : String → StartConfig
dev_config hostname = record {
  redis = record {
    addr = "localhost:6579";
    password = "";
    consumer_left_task_key = "offlinepush:consumer:leftmessage";
    producer_left_task_key = "offlinepush:producer:lefttask";
  };
  etcd = record { addr = "localhost:2379" };
  kafka = record { addr = "localhost:9094" };
  my_sql = record { dsn = "root:root@tcp(localhost:30306)/offlinepush" };
  register = record {
    service_name = "offlinepush-local";
    consumer_prefix = "offlinepush-consumer";
    interceptor_key = "offlinepush-interceptor";
    manual_task_key = "offlinepush-manual";
    read_count_key = "offlinepush-msg-count";
    write_count_key = "offlinepush-msg-count-write";
    pod_name = hostname;
  };
  lock = record {
    lock_key = "offlinepush-lock";
    expiration = 1000 * 6;
    refresh_interval = 1000 * 5;
    timeout = 200;
  };
}

abbrev pub k8s_config : String → StartConfig
k8s_config hostname = record {
  redis = record {
    addr = "offlinepush-redis:6579";
    password = "";
    consumer_left_task_key = "k8s-offlinepush:consumer:leftmessage";
    producer_left_task_key = "k8s-offlinepush:producer:lefttask";
  };
  etcd = record { addr = "offlinepush-etcd:2379" };
  kafka = record { addr = "offlinepush-kafka:9094" };
  my_sql = record { dsn = "root:root@tcp(offlinepush-mysql-k8s:3316)/offlinepush" };
  register = record {
    service_name = "k8s-offlinepush-service";
    consumer_prefix = "k8s-offlinepush-consumer";
    interceptor_key = "k8s-offlinepush-interceptor";
    manual_task_key = "k8s-offlinepush-manual";
    read_count_key = "k8s-offlinepush-msg-count";
    write_count_key = "k8s-offlinepush-msg-count-write";
    pod_name = hostname;
  };
  lock = record {
    lock_key = "k8s-offlinepush-lock";
    expiration = 1000 * 6;
    refresh_interval = 1000 * 5;
    timeout = 200;
  };
}

pub record PushConfig : Type 0 where
  pub topic : Topic
  pub device_type_list : List String
  pub cron : String
  pub qps : ℤ
  pub num : ℤ

abbrev pub devices : List String
devices =
    "DeviceA" ∷ "DeviceB" ∷ "DeviceC" ∷ "DeviceD" ∷ "DeviceE" ∷ "DeviceF" ∷ "DeviceG" ∷ "DeviceH"
    ∷ "DeviceI" ∷ "DeviceJ" ∷ "DeviceK" ∷ "DeviceL" ∷ "DeviceM" ∷ "DeviceN" ∷ "DeviceP" ∷ "DeviceQ"
    ∷ "DeviceR" ∷ "DeviceS" ∷ "DeviceT" ∷ "DeviceX" ∷ []

unfoldable pub push_map : Dict PushConfig
push_map =
    (
      "reboot",
      record {
        topic = record { name = "reboot"; domain = "" };
        device_type_list = "DeviceQ" ∷ "DeviceR" ∷ "DeviceS" ∷ "DeviceT" ∷ "DeviceX" ∷ [];
        cron = "0 15 * * *";
        qps = pos 4000;
        num = pos 0;
      },
    )
    ∷ (
      "weather",
      record {
        topic = record { name = "weather"; domain = "" };
        device_type_list =
            "DeviceA" ∷ "DeviceB" ∷ "DeviceC" ∷ "DeviceD" ∷ "DeviceE" ∷ "DeviceF" ∷ "DeviceG"
            ∷ "DeviceH" ∷ "DeviceI" ∷ "DeviceJ" ∷ "DeviceK" ∷ "DeviceL" ∷ "DeviceM" ∷ "DeviceN"
            ∷ "DeviceP" ∷ "DeviceQ" ∷ "DeviceR" ∷ "DeviceS" ∷ "DeviceT" ∷ "DeviceX" ∷ [];
        cron = "@hourly";
        qps = pos 4000;
        num = pos 0;
      },
    )
    ∷ (
      "card",
      record {
        topic = record { name = "card"; domain = "www.card.iHome.com" };
        device_type_list =
            "DeviceA" ∷ "DeviceB" ∷ "DeviceC" ∷ "DeviceD" ∷ "DeviceE" ∷ "DeviceF" ∷ "DeviceG"
            ∷ "DeviceH" ∷ [];
        cron = "30 * * * *";
        qps = pos 4000;
        num = pos 0;
      },
    )
    ∷ []
