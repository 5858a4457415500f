-- ===== src/Types/Evidence.antt =====
-- What a clipboard backend knows of a read: the vocabulary of crates/vbuff-types/src/lib.rs and
-- status.rs that the capture gate decides by.
use vbuff.Base.{Option}
use vbuff.Types.Text.{Text}

pub data SensitivityReason : Type 0 where
  source_application capture_rule entropy operating_system_hint private_key cloud_credential
        access_token json_web_token payment_card one_time_password recovery_code possible_secret :
      SensitivityReason

pub data ProvenanceConfidence : Type 0 where
  proven unknown : ProvenanceConfidence

pub data ConcealmentSignal : Type 0 where
  concealed clear unknown : ConcealmentSignal

pub data GenerationCoherence : Type 0 where
  coherent torn unknown : GenerationCoherence

pub data SelectionIntent : Type 0 where
  intended incidental unknown : SelectionIntent

pub data SelectionSource : Type 0 where
  clipboard primary : SelectionSource

-- The rectangle of the selection, which nothing here reads, is left out.
pub record CaptureProvenance : Type 0 where
  pub app_id : Option Text
  pub window_title : Option Text
  pub document_path : Option Text
  pub source_url : Option Text
