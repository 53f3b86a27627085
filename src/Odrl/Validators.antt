-- ===== src/Odrl/Validators.antt =====
-- odrl/validators.go: the words that the fields of policies may hold.
use run_dsp.Prelude.{String, Bool, List, [], ◌∷◌, contains_text}

abbrev pub actions : List String
actions =
    "" ∷ "odrl:delete" ∷ "odrl:execute" ∷ "cc:SourceCode" ∷ "odrl:anonymize" ∷ "odrl:extract"
    ∷ "odrl:read" ∷ "odrl:index" ∷ "odrl:compensate" ∷ "odrl:sell" ∷ "odrl:derive"
    ∷ "odrl:ensureExclusivity" ∷ "odrl:annotate" ∷ "cc:Reproduction" ∷ "odrl:translate"
    ∷ "odrl:include" ∷ "cc:DerivativeWorks" ∷ "cc:Distribution" ∷ "odrl:textToSpeech"
    ∷ "odrl:inform" ∷ "odrl:grantUse" ∷ "odrl:archive" ∷ "odrl:modify" ∷ "odrl:aggregate"
    ∷ "odrl:attribute" ∷ "odrl:nextPolicy" ∷ "odrl:digitize" ∷ "cc:Attribution" ∷ "odrl:install"
    ∷ "odrl:concurrentUse" ∷ "odrl:distribute" ∷ "odrl:synchronize" ∷ "odrl:move"
    ∷ "odrl:obtainConsent" ∷ "odrl:print" ∷ "cc:Notice" ∷ "odrl:give" ∷ "odrl:uninstall"
    ∷ "cc:Sharing" ∷ "odrl:reviewPolicy" ∷ "odrl:watermark" ∷ "odrl:play" ∷ "odrl:reproduce"
    ∷ "odrl:transform" ∷ "odrl:display" ∷ "odrl:stream" ∷ "cc:ShareAlike" ∷ "odrl:acceptTracking"
    ∷ "cc:CommericalUse" ∷ "odrl:present" ∷ "odrl:use" ∷ "odrl:copy" ∷ []

unfoldable pub action : String → Bool
action s = contains_text s actions

abbrev pub left_operands : List String
left_operands =
    "odrl:absolutePosition" ∷ "odrl:absoluteSize" ∷ "odrl:absoluteSpatialPosition"
    ∷ "odrl:absoluteTemporalPosition" ∷ "odrl:count" ∷ "odrl:dateTime" ∷ "odrl:delayPeriod"
    ∷ "odrl:deliveryChannel" ∷ "odrl:device" ∷ "odrl:elapsedTime" ∷ "odrl:event" ∷ "odrl:fileFormat"
    ∷ "odrl:industry" ∷ "odrl:language" ∷ "odrl:media" ∷ "odrl:meteredTime" ∷ "odrl:payAmount"
    ∷ "odrl:percentage" ∷ "odrl:product" ∷ "odrl:purpose" ∷ "odrl:recipient"
    ∷ "odrl:relativePosition" ∷ "odrl:relativeSize" ∷ "odrl:relativeSpatialPosition"
    ∷ "odrl:relativeTemporalPosition" ∷ "odrl:resolution" ∷ "odrl:spatial"
    ∷ "odrl:spatialCoordinates" ∷ "odrl:system" ∷ "odrl:systemDevice" ∷ "odrl:timeInterval"
    ∷ "odrl:unitOfCount" ∷ "odrl:version" ∷ "odrl:virtualLocation" ∷ []

unfoldable pub left_operand : String → Bool
left_operand s = contains_text s left_operands

abbrev pub operators : List String
operators =
    "odrl:eq" ∷ "odrl:gt" ∷ "odrl:gteq" ∷ "odrl:hasPart" ∷ "odrl:isA" ∷ "odrl:isAllOf"
    ∷ "odrl:isAnyOf" ∷ "odrl:isNoneOf" ∷ "odrl:isPartOf" ∷ "odrl:lt" ∷ "odrl:term-lteq" ∷ "odrl:neq"
    ∷ []

unfoldable pub operator : String → Bool
operator s = contains_text s operators

-- `RegisterValidators`: the tags with their validators, for `RegisterValidation`.
unfoldable pub register_validators : List (String × (String → Bool))
unfolding action left_operand operator
register_validators =
    ("odrl_action", action) ∷ ("odrl_leftoperand", left_operand) ∷ ("odrl_operator", operator) ∷ []
